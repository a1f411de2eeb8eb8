-- ===== src/EntryParser/Objects.antt =====
-- The printing of objects in src/malc/entry_parser.c, and the types of include/malc/common.h that
-- their hooks see.
pub mod Arrays
use Prim.Native.Nat.{ℕ, zero, suc, ◌+◌, ◌*◌, ◌%◌}
use mini_async_log_c.Common.{
  Bool, true, false, ◌||◌, Option, none, some, List, [], ◌∷◌, ◌++◌, if◌then◌else◌, ltb, leb, ◌==◌,
  length, Result, ok, err, BlErr, invalid, error,
}
use mini_async_log_c.Serial.Values.{LogArgument, vobj, vobjctx, vobjflag, type_float}
use mini_async_log_c.EntryParser.Types.{
  separator, EntryParser, Printing, Ep, pure, raise, after, append, append_fmt_unchecked,
  append_made, clear_fmt,
}
use mini_async_log_c.EntryParser.FloatFormat.{build_float_format}

-- `malc_obj_ref`: the bytes that `obj` points to, and the union.
pub data Extra : Type 0 where
  context flag : ℕ → Extra

pub record ObjRef : Type 0 where
  pub obj : List ℕ
  pub extra : Extra

-- `malc_obj_type_id`
abbrev pub obj_u8 : ℕ
obj_u8 = 0

abbrev pub obj_i8 : ℕ
obj_i8 = 4

abbrev pub obj_i64 : ℕ
obj_i64 = 7

abbrev pub obj_float : ℕ
obj_float = 8

abbrev pub obj_double : ℕ
obj_double = 9

-- `malc_obj_log_data`: a pointer with a length, or with a type and a count.
pub data ObjLogData : Type 0 where
  str : ℕ → ℕ → ObjLogData
  builtin : ℕ → ℕ → ℕ → ObjLogData

-- A run of an object's `getdata`: it returns a code, or it calls `malc_obj_push` with a pointer, which
-- can be null, and goes on with what that returns.
pub data GetData : Type 0 where
  done : ℕ → GetData
  push : Option ObjLogData → (Result (Unit {0}) → GetData) → GetData

-- The hooks of `malc_obj_table`, by the table's address; `none` is a null pointer.
pub record ObjTables : Type 0 where
  pub getdata : ℕ → Option (ObjRef → GetData)
  pub has_destroy : ℕ → Bool

abbrev pub get_aligned_obj_ref : List ℕ → ObjRef
get_aligned_obj_ref bytes = record { obj = bytes; extra = context 0 }

abbrev pub get_aligned_obj_ref_flag : ℕ → List ℕ → ObjRef
get_aligned_obj_ref_flag f bytes = record (get_aligned_obj_ref bytes) { extra = flag f }

abbrev pub get_aligned_obj_ref_ctx : ℕ → List ℕ → ObjRef
get_aligned_obj_ref_ctx c bytes = record (get_aligned_obj_ref bytes) { extra = context c }

module _ (out : Printing) where
  unfoldable pub append_int_array : List ℕ → ℕ → ℕ → Bool → ℕ → Ep (Unit {0})
  unfolding append_fmt_unchecked append_made
  append_int_array spec v v_count is_signed sz_log2 ep =
      let ep' = append_fmt_unchecked out spec ep in
      append_made out (out.itostr_arr ep'.fmt separator v v_count is_signed sz_log2) ep'

  -- The element at an index of an array, as it is printed.
  abbrev pub print_at : ℕ → ℕ → List ℕ → ℕ → List ℕ
  print_at type ptr fmt i =
      if type == type_float
      then out.print_float fmt (out.float_at ptr i)
      else out.print_double fmt (out.double_at ptr i)

  -- The separator, when the text has grown since it was `prev_len` long: the new `prev_len`.
  unfoldable pub separate : ℕ → Ep ℕ
  unfolding append
  separate prev_len ep =
      if ltb prev_len (length ep.str)
      then after (append out separator ep) (λ u. pure (length ep.str))
      else some (ep, ok prev_len)

  -- The `for` loop, from the number of elements that are left and the index.
  unfoldable pub push_floats : ℕ → ℕ → ℕ → ℕ → ℕ → Ep (Unit {0})
  unfolding separate append
  push_floats zero i type ptr prev_len ep = some (ep, ok tt)
  push_floats (suc count) i type ptr prev_len ep = after (separate prev_len ep) (λ prev_len' ep.
      after (append out (print_at type ptr ep.fmt i) ep)
        (λ u. push_floats count (i + 1) type ptr prev_len'))

  unfoldable pub push_builtin : List ℕ → ℕ → ℕ → ℕ → Ep (Unit {0})
  unfolding append_int_array push_floats build_float_format
  push_builtin spec ptr type count ep =
      if ltb obj_double type
      then some (ep, err invalid)
      else if count == 0 || (ptr == 0)
      then some (ep, ok tt)
      else if leb type obj_i64
      then append_int_array spec ptr count (leb obj_i8 type) (type % 4) ep
      else after (build_float_format out spec ep)
          (λ u. push_floats count 0 type ptr (length ep.str))

  unfoldable pub push_obj_data : List ℕ → Option ObjLogData → Ep (Unit {0})
  unfolding append push_builtin
  push_obj_data spec none ep = some (ep, err invalid)
  push_obj_data spec (some (str ptr len)) ep = append out (out.bytes_at ptr len) (clear_fmt ep)
  push_obj_data spec (some (builtin ptr type count)) ep =
      push_builtin spec ptr type count (clear_fmt ep)

  -- The run of `getdata` on the parser: each push with the modifiers of the placeholder
  -- (`malc_obj_push`).
  unfoldable pub run_getdata : List ℕ → GetData → Ep ℕ
  unfolding push_obj_data
  run_getdata spec (done code) ep = some (ep, ok code)
  run_getdata spec (push ld next) ep = elim (push_obj_data spec ld ep) [
    | none ↦ none
    | some r ↦ run_getdata spec (next r.1) r.0
  ]

  unfoldable pub append_obj : ObjTables → List ℕ → ℕ → ObjRef → Ep (Unit {0})
  unfolding run_getdata
  append_obj tables spec table od ep = elim (tables.getdata table) [
    | none ↦ some (ep, err invalid)
    | some getdata ↦
        after (run_getdata spec (getdata od) ep)
          (λ code. if code == 0 then pure tt else raise error)
  ]

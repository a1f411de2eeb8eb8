-- ===== src/EntryParser/Args.antt =====
-- `append_arg` of src/malc/entry_parser.c, and the functions it picks among.
pub mod Memory
use Prim.Native.Nat.{ℕ, zero, suc, ◌+◌, ◌*◌, ◌/◌, ◌%◌, ◌^◌}
use mini_async_log_c.Common.{
  Bool, true, false, ◌||◌, Option, none, some, List, [], ◌∷◌, ◌++◌, if◌then◌else◌, ◌==◌, length,
  take, drop, Result, ok, err, BlErr, invalid,
}
use mini_async_log_c.Serial.Values.{
  LogArgument, vu8, vu16, vu32, vfloat, vu64, vdouble, vptr, vlit, vstrcp, vstrref, vobj, vobjctx,
  vobjflag, type_i8, type_u8, type_i16, type_u16, type_i32, type_u32, type_float, type_i64,
  type_u64, type_double, type_ptr, type_lit, type_strcp, type_memcp, type_strref, type_memref,
  type_obj, type_obj_ctx, type_obj_flag,
}
use mini_async_log_c.EntryParser.Types.{
  lit, EntryParser, Printing, Ep, pure, raise, after, append, append_fmt_unchecked, append_made,
  clear_fmt,
}
use mini_async_log_c.EntryParser.FloatFormat.{build_float_format}
use mini_async_log_c.EntryParser.Objects.{
  ObjTables, append_obj, get_aligned_obj_ref, get_aligned_obj_ref_flag, get_aligned_obj_ref_ctx,
}

-- The member of the union that a number, a text or an object is in: what the deserializer stores for
-- the type. A member that was not stored reads as 0, or as nothing.
abbrev pub number : LogArgument → ℕ
number (vu8 v) = v
number (vu16 v) = v
number (vu32 v) = v
number (vfloat v) = v
number (vu64 v) = v
number (vdouble v) = v
number (vptr v) = v
number (vlit v) = v
number _ = 0

abbrev pub copied : LogArgument → List ℕ
copied (vstrcp bytes) = bytes
copied _ = []

-- The labels of `switch` that share a call.
abbrev pub is_int : ℕ → Bool
is_int type =
    type == type_i8
    || (type == type_u8)
    || (type == type_i16)
    || (type == type_u16)
    || (type == type_i32)
    || (type == type_u32)
    || (type == type_i64)
    || (type == type_u64)

abbrev pub is_obj : ℕ → Bool
is_obj type = type == type_obj || (type == type_obj_ctx) || (type == type_obj_flag)

module _ (out : Printing) where
  abbrev pub referred : LogArgument → List ℕ
  referred (vstrref p n) = out.bytes_at p n
  referred _ = []

  -- The call of `bl_itostr_dyn_i` or `bl_itostr_dyn_u` for a type: its sign and its width.
  abbrev pub print_int : ℕ → List ℕ → ℕ → Result (List ℕ)
  print_int type fmt v =
      if type == type_i8
      then out.itostr true 8 fmt v
      else if type == type_u8
      then out.itostr false 8 fmt v
      else if type == type_i16
      then out.itostr true 16 fmt v
      else if type == type_u16
      then out.itostr false 16 fmt v
      else if type == type_i32
      then out.itostr true 32 fmt v
      else if type == type_u32
      then out.itostr false 32 fmt v
      else if type == type_i64
      then out.itostr true 64 fmt v
      else if type == type_u64
      then out.itostr false 64 fmt v
      else err invalid

  unfoldable pub append_int : LogArgument → ℕ → List ℕ → Ep (Unit {0})
  unfolding append_fmt_unchecked append_made
  append_int arg type spec ep =
      let ep' = append_fmt_unchecked out spec ep in
      append_made out (print_int type ep'.fmt (number arg)) ep'

  unfoldable pub append_float : LogArgument → ℕ → List ℕ → Ep (Unit {0})
  unfolding build_float_format append
  append_float arg type spec ep = after (build_float_format out spec ep) (λ u ep'.
      if type == type_float
      then append out (out.print_float ep'.fmt (number arg)) ep'
      else append out (out.print_double ep'.fmt (number arg)) ep')

  -- The `for` loop over the runs of `mem_run` bytes, and the bytes after the last one.
  abbrev pub mem_run : ℕ
  mem_run = 64

  unfoldable pub append_runs : ℕ → ℕ → List ℕ → Ep (Unit {0})
  unfolding append
  append_runs zero last mem ep = append out (take (last * 2) (out.hex (take last mem))) ep
  append_runs (suc runs) last mem ep =
      after (append out (take 128 (out.hex (take mem_run mem))) ep)
        (λ u. append_runs runs last (drop mem_run mem))

  unfoldable pub append_mem : List ℕ → Ep (Unit {0})
  unfolding append_runs
  append_mem mem ep = elim (out.capacity_error (length ep.str + length mem * 2)) [
    | some e ↦ some (ep, err e)
    | none ↦ append_runs (length mem / mem_run) (length mem % mem_run) mem ep
  ]

  -- `append_obj` for an object, of the member that the deserializer stores its type in; where another
  -- member was stored there is no object, and nothing is appended.
  unfoldable pub append_obj_arg : ObjTables → LogArgument → List ℕ → Ep (Unit {0})
  unfolding append_obj
  append_obj_arg tables (vobj table bytes) spec ep =
      append_obj out tables spec table (get_aligned_obj_ref bytes) ep
  append_obj_arg tables (vobjctx c table bytes) spec ep =
      append_obj out tables spec table (get_aligned_obj_ref_ctx c bytes) ep
  append_obj_arg tables (vobjflag f table bytes) spec ep =
      append_obj out tables spec table (get_aligned_obj_ref_flag f bytes) ep
  append_obj_arg tables _ spec ep = some (ep, ok tt)

  unfoldable pub append_arg : ObjTables → LogArgument → ℕ → List ℕ → Ep (Unit {0})
  unfolding append_int append_float append_mem append_obj_arg append
  append_arg tables arg type spec ep =
      let ep = clear_fmt ep in
      if is_int type
      then append_int arg type spec ep
      else if type == type_float || (type == type_double)
      then append_float arg type spec ep
      else if type == type_ptr
      then append out (out.print_ptr (number arg)) ep
      else if type == type_lit
      then append out (out.text_at (number arg)) ep
      else if type == type_strcp
      then append out (copied arg) ep
      else if type == type_memcp
      then append_mem (copied arg) ep
      else if type == type_strref
      then append out (referred arg) ep
      else if type == type_memref
      then append_mem (referred arg) ep
      else if is_obj type
      then append_obj_arg tables arg spec ep
      else some (ep, ok tt)

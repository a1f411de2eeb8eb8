-- ===== src/Wrapper/StdTypes/Called.antt =====
-- A smart pointer to a vector as the argument of a call of the C++ interface: its serialization by
-- include/malcpp/impl/c++11_std_types.hpp, its reading by src/malc/serialization.c, and its text by
-- src/malc/entry_parser.c with the hook of src/malcpp/c++_std_types.cpp.
use mini_async_log_c.Common.{
  ℕ, ◌^◌, ◌≤◌, ◌<◌, ◌≡◌, ◌≢◌, refl, sym, ap, ◌∙◌, false, Option, some, List, [], ◌++◌, length,
  Result, ok, err, BlErr, error, arith,
}
use mini_async_log_c.Serial.Values.{Build, StaticData, LogArgument, vobjflag, type_obj_flag}
use mini_async_log_c.Serial.Encode.{Serializer, put_bytes}
use mini_async_log_c.Serial.Decode.{push, decode_arg}
use mini_async_log_c.Serial.Decode.Laws.{cursor}
use mini_async_log_c.Validation.LoggedTypes.{
  Builtin, uint8, int8, uint16, int16, uint32, int32, uint64, int64, float, double,
  is_floating_point,
}
use mini_async_log_c.EntryParser.Types.{lit, EntryParser, Printing, clear_fmt}
use mini_async_log_c.EntryParser.FloatFormat.Laws.{Appends}
use mini_async_log_c.EntryParser.Objects.{ObjTables, obj_i64}
use mini_async_log_c.EntryParser.Args.{append_arg, append_obj_arg}
use mini_async_log_c.Wrapper.Objects.{fill_serializable, do_serialize, decode_arg-do_serialize}
use mini_async_log_c.Wrapper.StdTypes.{Elements, null_smart_ptr, vector_smartptr_get_data}
use mini_async_log_c.Wrapper.StdTypes.Prints.{
  Holds, HasAddress, header, bracketed, vector_text, append_obj-vector,
}
use mini_async_log_c.Wrapper.StdTypes.Logged.{
  builtin_type_map, type_name, arithmetic_type_flag, vector_object,
  arithmetic_type_flag-builtin_type_map,
}

integer_lem : (b : Builtin) → is_floating_point b ≡ false → builtin_type_map b ≤ obj_i64
integer_lem uint8 e = omega arith
integer_lem int8 e = omega arith
integer_lem uint16 e = omega arith
integer_lem int16 e = omega arith
integer_lem uint32 e = omega arith
integer_lem int32 e = omega arith
integer_lem uint64 e = omega arith
integer_lem int64 e = omega arith
integer_lem float e = absurd (cc e)
integer_lem double e = absurd (cc e)

-- The elements behind the name of their type and before the bracket; an error leaves the name.
abbrev pub with_type :
    List ℕ → List ℕ → Result (List ℕ) → EntryParser → EntryParser × Result (Unit {0})
with_type spec name (ok t) ep =
    (record ep { str = ep.str ++ (name ++ (t ++ lit "]")); fmt = [] }, ok tt)
with_type spec name (err e) ep = (record ep { str = ep.str ++ name; fmt = spec }, err error)

bracketed-with_type :
    (spec name : List ℕ) (f : ℕ) (r : Result (List ℕ)) (ep : EntryParser)
    → header f ≡ name
    → bracketed spec f r (clear_fmt ep) ≡ with_type spec name r ep
bracketed-with_type spec name f (ok t) ep e = rw e refl
bracketed-with_type spec name f (err x) ep e = rw e refl

module _ (log2_ceil : ℕ → ℕ) (log : (n : ℕ) → n < 8 → log2_ceil (2 ^ n) ≡ n) (out : Printing)
    (fits : Appends out) (address : List ℕ → ℕ) (own : BlErr → ℕ)
    (own_error : (e : BlErr) → own e ≢ 0) (tables : ObjTables)
    (dereference : List ℕ → Option Elements) where
  flag_lem : (b : Builtin) → arithmetic_type_flag log2_ceil b ≡ builtin_type_map b
  flag_lem b = (arithmetic_type_flag-builtin_type_map log2_ceil b log).0

  name_lem : (b : Builtin) → header (builtin_type_map b) ≡ type_name b
  name_lem b =
      ap header (sym (flag_lem b)) ∙ (arithmetic_type_flag-builtin_type_map log2_ceil b log).1

  -- The text of the argument that the deserializer reads.
  append_arg-vector :
      (b : Builtin) (table : ℕ) (bytes spec : List ℕ) (ep : EntryParser)
      → is_floating_point b ≡ false
      → tables.getdata table ≡ some (vector_smartptr_get_data address own dereference)
      → out.bytes_at (address (type_name b)) 4 ≡ type_name b
      → Holds out address null_smart_ptr
      → Holds out address (lit "]")
      → HasAddress (dereference bytes)
      → append_arg out tables (vobjflag (builtin_type_map b) table bytes) type_obj_flag spec ep
        ≡ some (
            with_type spec
              (type_name b)
              (vector_text out spec (builtin_type_map b) (dereference bytes))
              ep)
  unfolding append_arg append_obj_arg
  append_arg-vector b table bytes spec ep int hook first null last a =
      append_obj-vector out fits address own tables dereference spec table (builtin_type_map b)
        bytes (clear_fmt ep) hook own_error (integer_lem b int) (rw (name_lem b) first) null last a
      ∙ ap some (
          bracketed-with_type spec (type_name b) (builtin_type_map b)
            (vector_text out spec (builtin_type_map b) (dereference bytes)) ep (name_lem b))

  -- A smart pointer to a vector of integers as an argument of a call: what is serialized for it is
  -- read as one argument, whose text is the type of the elements, the elements as the base library
  -- prints them, of which there are 255 at most, and a bracket; or "nullptr" between the type and
  -- the bracket when the pointer is null. An error at the elements comes back as an error, and
  -- leaves the type behind the text that there was. The table's address is in range and its size
  -- is that of the pointer, no append fails, the literals are in memory, a vector with elements
  -- has an address, the table has the hook of vectors, the code of an error is not 0, and the
  -- logarithm of the base library is that of the powers of two below 2^8.
  pub vector_object-printed :
      (build : Build) (static : StaticData) (s : Serializer) (memory : ℕ) (b : Builtin) (table : ℕ)
      (bytes h rest spec : List ℕ) (i : ℕ) (ep : EntryParser)
      → is_floating_point b ≡ false
      → table < 256 ^ build.ptr_bytes
      → length bytes ≡ static.obj_sizeof table
      → tables.getdata table ≡ some (vector_smartptr_get_data address own dereference)
      → out.bytes_at (address (type_name b)) 4 ≡ type_name b
      → Holds out address null_smart_ptr
      → Holds out address (lit "]")
      → HasAddress (dereference bytes)
      → (written : List ℕ) × (do_serialize build s
            (fill_serializable memory (vector_object log2_ceil b table bytes))
          ≡ put_bytes s written)
        × (arg : LogArgument) × (decode_arg build static type_obj_flag
              (cursor h i (written ++ rest))
            ≡ ok (push arg, cursor h i rest))
        × (append_arg out tables arg type_obj_flag spec ep
            ≡ some (
                with_type spec
                  (type_name b)
                  (vector_text out spec (builtin_type_map b) (dereference bytes))
                  ep))
  unfolding vector_object fill_serializable
  vector_object-printed build static s memory b table bytes h rest spec i ep int small size hook
        first null last a =
      let f : ℕ = arithmetic_type_flag log2_ceil b in
      let some_flag : f < 256 = rw (flag_lem b) (omega (arith, integer_lem b int)) in
      let (written, put, _, read) =
        decode_arg-do_serialize build static s memory (vector_object log2_ceil b table bytes) h i
          rest ((small, size), some_flag) in
      (
        written,
        put,
        vobjflag f table bytes,
        read,
        rw (flag_lem b) (append_arg-vector b table bytes spec ep int hook first null last a),
      )

-- ===== src/Wrapper/StdTypes.antt =====
-- The hooks of src/malcpp/c++_std_types.cpp for smart pointers and types with an output operator, with
-- `obj_log_data` of include/malcpp/custom_type.hpp and src/malcpp/custom_type.cpp. What the C++ types
-- hold is what the `dereference` and `print` of their tables return.
pub mod Prints
pub mod Logged
pub mod Called
pub mod Pointers
use mini_async_log_c.Common.{
  ℕ, ◌-◌, ◌^◌, ◌%◌, Bool, Option, none, some, List, [], ◌∷◌, if◌then◌else◌, ltb, leb, ◌==◌, length,
  get_or, Result, ok, err, BlErr,
}
use mini_async_log_c.EntryParser.Types.{lit}
use mini_async_log_c.EntryParser.Objects.{
  Extra, context, flag, ObjRef, ObjLogData, str, builtin, GetData, done, push, obj_double,
}
use mini_async_log_c.Wrapper.Throwing.{Thrown, returned, exception}

-- `obj_log_data::get_as_str` and `obj_log_data::get` of an address, a count and a type. The fields have 16
-- and 8 bits.
unfoldable pub get_as_str : ℕ → ℕ → ObjLogData
get_as_str ptr len = let cut = len % 2 ^ 16 in str ptr (if ltb cut len then 2 ^ 16 - 1 else cut)

unfoldable pub get_builtin : ℕ → ℕ → ℕ → ObjLogData
get_builtin addr count type =
    let cut = count % 2 ^ 8 in builtin addr type (if ltb cut count then 2 ^ 8 - 1 else cut)

-- The address of the elements and their count, for a string or a vector.
pub record Elements : Type 0 where
  pub start : ℕ
  pub size : ℕ

-- `obj_log_data::get` of a `std::string`, and of a `std::vector` with the type of its elements.
abbrev pub get_string : Elements → ObjLogData
get_string s = get_as_str s.start s.size

abbrev pub get_vector : ℕ → Elements → ObjLogData
get_vector type v = get_builtin (if v.size == 0 then 0 else v.start) v.size type

-- The byte of the union.
abbrev pub flag_of : Extra → ℕ
flag_of (flag f) = f
flag_of (context c) = c % 2 ^ 8

abbrev pub null_smart_ptr : List ℕ
null_smart_ptr = lit "nullptr"

abbrev pub headers : List (List ℕ)
headers =
    lit "u08["
    ∷ lit "u16["
    ∷ lit "u32["
    ∷ lit "u64["
    ∷ lit "s08["
    ∷ lit "s16["
    ∷ lit "s32["
    ∷ lit "s64["
    ∷ lit "flt["
    ∷ lit "dbl["
    ∷ []

-- Where the literals are, and the codes of errors (`bl_err::own`).
module _ (address : List ℕ → ℕ) (own : BlErr → ℕ) where
  -- `obj_log_data::get` of a literal.
  abbrev pub get_lit : List ℕ → ObjLogData
  get_lit t = get_as_str (address t) (length t)

  -- `return malc_obj_push (pc, &ld)`, and a push whose error is returned.
  abbrev pub push_last : ObjLogData → GetData
  push_last ld = push (some ld) (λ r. elim r [ ok u ↦ done 0 | err e ↦ done (own e) ])

  abbrev pub push_then : ObjLogData → GetData → GetData
  push_then ld next = push (some ld) (λ r. elim r [ ok u ↦ next | err e ↦ done (own e) ])

  unfoldable pub string_smartptr_get_data : (List ℕ → Option Elements) → ObjRef → GetData
  unfolding get_as_str
  string_smartptr_get_data dereference od = elim (dereference od.obj) [
    | some s ↦ push_last (get_string s)
    | none ↦ push_last (get_lit null_smart_ptr)
  ]

  -- The first push, and the second: behind the flags of `malc_obj_type_id` it is the first one's again.
  unfoldable pub header_data : ℕ → ObjLogData
  unfolding get_as_str
  header_data f =
      if leb f obj_double
      then get_as_str (address (get_or headers f [])) 4
      else get_lit (lit "[unknown vector]")

  unfoldable pub vector_data : ℕ → Option Elements → ObjLogData
  unfolding get_as_str get_builtin header_data
  vector_data f none = get_lit null_smart_ptr
  vector_data f (some v) = if leb f obj_double then get_vector f v else header_data f

  unfoldable pub vector_smartptr_get_data : (List ℕ → Option Elements) → ObjRef → GetData
  unfolding header_data vector_data get_as_str
  vector_smartptr_get_data dereference od =
      let f = flag_of od.extra in
      push_then (header_data f)
        (push_then (vector_data f (dereference od.obj)) (push_last (get_lit (lit "]"))))

  -- From what `print` and the string that it makes do: an exception, a null pointer or the string.
  unfoldable pub ostringstream_get_data : (List ℕ → Thrown (Option Elements)) → ObjRef → GetData
  unfolding get_as_str
  ostringstream_get_data print od = elim (print od.obj) [
    | returned (some s) ↦ push_last (get_string s)
    | returned none ↦ push_last (get_lit null_smart_ptr)
    | exception ↦ done 1
  ]

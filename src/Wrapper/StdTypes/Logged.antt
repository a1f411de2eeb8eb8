-- ===== src/Wrapper/StdTypes/Logged.antt =====
-- The logged type of a smart pointer to a vector, of include/malcpp/impl/c++11_std_types.hpp and
-- include/malcpp/custom_type.hpp, from the call to the text.
use mini_async_log_c.Common.{
  ℕ, ◌^◌, ◌<◌, ◌≡◌, refl, Bool, true, false, List, if◌then◌else◌, bit_or, arith,
}
use mini_async_log_c.Validation.LoggedTypes.{
  Builtin, uint8, int8, uint16, int16, uint32, int32, uint64, int64, float, double,
}
use mini_async_log_c.EntryParser.Types.{lit}
use mini_async_log_c.EntryParser.Objects.{obj_float, obj_double}
use mini_async_log_c.Wrapper.Objects.{RawObject, raw_object_w_flag}
use mini_async_log_c.Wrapper.StdTypes.Prints.{header}

-- `sizeof` and `std::is_signed`.
abbrev pub sizeof : Builtin → ℕ
sizeof uint8 = 1
sizeof int8 = 1
sizeof uint16 = 2
sizeof int16 = 2
sizeof uint32 = 4
sizeof int32 = 4
sizeof uint64 = 8
sizeof int64 = 8
sizeof float = 4
sizeof double = 8

abbrev pub is_signed : Builtin → Bool
is_signed uint8 = false
is_signed uint16 = false
is_signed uint32 = false
is_signed uint64 = false
is_signed _ = true

-- `builtin_type_map`
abbrev pub builtin_type_map : Builtin → ℕ
builtin_type_map uint8 = 0
builtin_type_map int8 = 4
builtin_type_map uint16 = 1
builtin_type_map int16 = 5
builtin_type_map uint32 = 2
builtin_type_map int32 = 6
builtin_type_map uint64 = 3
builtin_type_map int64 = 7
builtin_type_map float = obj_float
builtin_type_map double = obj_double

-- The type that the text names, without the bracket.
abbrev pub type_name : Builtin → List ℕ
type_name uint8 = lit "u08["
type_name int8 = lit "s08["
type_name uint16 = lit "u16["
type_name int16 = lit "s16["
type_name uint32 = lit "u32["
type_name int32 = lit "s32["
type_name uint64 = lit "u64["
type_name int64 = lit "s64["
type_name float = lit "flt["
type_name double = lit "dbl["

-- `bl_static_log2_ceil_u8` of the base library.
module _ (log2_ceil : ℕ → ℕ) where
  -- `arithmetic_type_flag`
  unfoldable pub arithmetic_type_flag : Builtin → ℕ
  arithmetic_type_flag float = obj_float
  arithmetic_type_flag double = obj_double
  arithmetic_type_flag b = bit_or (log2_ceil (sizeof b)) (if is_signed b then 4 else 0)

  -- `smartptr_obj_w_flag::to_serializable` up to `raw_object_w_flag`, of the bytes of a smart pointer whose
  -- vector has elements of the type.
  unfoldable pub vector_object : Builtin → ℕ → List ℕ → RawObject
  unfolding arithmetic_type_flag
  vector_object b table bytes = raw_object_w_flag table bytes (arithmetic_type_flag b)

  -- The flag of a call is the type that the hook takes for the elements.
  pub arithmetic_type_flag-builtin_type_map :
      (b : Builtin)
      → ((n : ℕ) → n < 8 → log2_ceil (2 ^ n) ≡ n)
      → (arithmetic_type_flag b ≡ builtin_type_map b)
        × (header (arithmetic_type_flag b) ≡ type_name b)
  unfolding arithmetic_type_flag
  arithmetic_type_flag-builtin_type_map uint8 log = rw (log 0 (omega arith)) (refl, refl)
  arithmetic_type_flag-builtin_type_map uint16 log = rw (log 1 (omega arith)) (refl, refl)
  arithmetic_type_flag-builtin_type_map uint32 log = rw (log 2 (omega arith)) (refl, refl)
  arithmetic_type_flag-builtin_type_map uint64 log = rw (log 3 (omega arith)) (refl, refl)
  arithmetic_type_flag-builtin_type_map int8 log = rw (log 0 (omega arith)) (refl, refl)
  arithmetic_type_flag-builtin_type_map int16 log = rw (log 1 (omega arith)) (refl, refl)
  arithmetic_type_flag-builtin_type_map int32 log = rw (log 2 (omega arith)) (refl, refl)
  arithmetic_type_flag-builtin_type_map int64 log = rw (log 3 (omega arith)) (refl, refl)
  arithmetic_type_flag-builtin_type_map float log = (refl, refl)
  arithmetic_type_flag-builtin_type_map double log = (refl, refl)

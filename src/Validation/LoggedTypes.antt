-- ===== src/Validation/LoggedTypes.antt =====
-- `logged_type` of include/malcpp/impl/serialization.hpp, c++11_basic_types.hpp and
-- c++11_std_types.hpp: what is known of an argument's type when a call is compiled.
use mini_async_log_c.Common.{ℕ, Bool, true, false, List, [], ◌∷◌}
use mini_async_log_c.Serial.Values.{
  type_i8, type_u8, type_i16, type_u16, type_i32, type_u32, type_float, type_i64, type_u64,
  type_double, type_ptr, type_lit, type_strcp, type_memcp, type_strref, type_memref, type_refdtor,
  type_obj, type_obj_ctx, type_obj_flag,
}
use mini_async_log_c.Validation.Modifiers.Integral
use mini_async_log_c.Validation.Modifiers.Floating

-- The types of `is_valid_builtin`.
pub data Builtin : Type 0 where
  uint8 int8 uint16 int16 uint32 int32 uint64 int64 float double : Builtin

-- The specializations of `logged_type`. A call with a type that has none does not compile: there is no
-- `type_id`, since the primary template calls its member `id`.
pub data LoggedType : Type 0 where
  builtin : Builtin → LoggedType
  malc_strcp malc_memcp void_ptr malc_lit malc_strref malc_memref malc_refdtor : LoggedType
  std_string_rvalue raw_object raw_object_w_context raw_object_w_flag smartptr_string : LoggedType
  smartptr_vector : Builtin → LoggedType

abbrev pub builtin_type_id : Builtin → ℕ
builtin_type_id uint8 = type_u8
builtin_type_id int8 = type_i8
builtin_type_id uint16 = type_u16
builtin_type_id int16 = type_i16
builtin_type_id uint32 = type_u32
builtin_type_id int32 = type_i32
builtin_type_id uint64 = type_u64
builtin_type_id int64 = type_i64
builtin_type_id float = type_float
builtin_type_id double = type_double

abbrev pub type_id : LoggedType → ℕ
type_id (builtin b) = builtin_type_id b
type_id malc_strcp = type_strcp
type_id malc_memcp = type_memcp
type_id void_ptr = type_ptr
type_id malc_lit = type_lit
type_id malc_strref = type_strref
type_id malc_memref = type_memref
type_id malc_refdtor = type_refdtor
type_id std_string_rvalue = type_strcp
type_id raw_object = type_obj
type_id raw_object_w_context = type_obj_ctx
type_id raw_object_w_flag = type_obj_flag
type_id smartptr_string = type_obj
type_id (smartptr_vector b) = type_obj_flag

abbrev pub is_floating_point : Builtin → Bool
is_floating_point float = true
is_floating_point double = true
is_floating_point _ = false

-- `default_format_validation`
abbrev pub no_modifiers : List ℕ → Bool
no_modifiers [] = true
no_modifiers (c ∷ rest) = false

unfoldable pub validate_builtin : Builtin → List ℕ → Bool
unfolding Integral.validate Floating.validate
validate_builtin float l = Floating.validate l
validate_builtin double l = Floating.validate l
validate_builtin _ l = Integral.validate l

unfoldable pub validate_format_modifiers : LoggedType → List ℕ → Bool
unfolding validate_builtin
validate_format_modifiers (builtin b) l = validate_builtin b l
validate_format_modifiers (smartptr_vector b) l = validate_builtin b l
validate_format_modifiers _ l = no_modifiers l

abbrev pub is_refdtor : LoggedType → Bool
is_refdtor malc_refdtor = true
is_refdtor _ = false

-- `is_malc_refvalue`
abbrev pub is_refvalue : LoggedType → Bool
is_refvalue malc_strref = true
is_refvalue malc_memref = true
is_refvalue _ = false

-- ===== src/Validation/Report.antt =====
-- `generate_compile_errors` and `static_arg_validation` of
-- include/malcpp/impl/compile_time_validation.hpp: the result of the two validations as assertions of
-- the compiler.
use mini_async_log_c.Common.{
  ℕ, zero, suc, ◌^◌, Bool, true, not, ◌&&◌, ◌||◌, Option, none, some, if◌then◌else◌, ltb, leb, ◌==◌,
}
use mini_async_log_c.Validation.{
  Fmterr, success_with_refs, success, invalid_modifiers, excess_placeholders, excess_arguments,
  unclosed_lbracket, missing_refdtor, misplaced_refdtor, repeated_refdtor, excess_refdtor,
  invalid_type, code, get_code, get_arg,
}

-- `res != e`, as `excessargs`, `excesspchs`, `unclosedb`, `missrefdt`, `misprefdt`, `reprefdt` and
-- `xsrefdt` have it.
abbrev pub is_not : ℕ → Fmterr → Bool
is_not res e = not (res == code e)

-- The assertions of `invmodif` and `invtype` on the arguments from the first to the one of this
-- number, and on those from the 50th.
unfoldable pub none_of : Fmterr → ℕ → ℕ → ℕ → Bool
none_of e res arg zero = true
none_of e res arg (suc num) = none_of e res arg num && (is_not res e || not (arg == suc num))

abbrev pub none_over : Fmterr → ℕ → ℕ → Bool
none_over e res arg = is_not res e || ltb arg 50

-- All of the assertions hold.
unfoldable pub generate_compile_errors : ℕ → ℕ → Bool
unfolding none_of
generate_compile_errors res arg =
    res == code success
    || (res == code success_with_refs)
    || (is_not res excess_arguments
        && is_not res excess_placeholders
        && is_not res unclosed_lbracket
        && is_not res missing_refdtor
        && is_not res misplaced_refdtor
        && is_not res repeated_refdtor
        && is_not res excess_refdtor
        && none_of invalid_modifiers res arg 49
        && none_over invalid_modifiers res arg
        && none_of invalid_type res arg 49
        && none_over invalid_type res arg)

-- `<` to 0 of an `int16_t`.
abbrev pub is_negative : ℕ → Bool
is_negative c = leb (2 ^ 15) c

-- `get_result` of the assertions on a result and the number of an argument.
unfoldable pub get_result : ℕ → ℕ → Option ℕ
unfolding generate_compile_errors
get_result res arg = if generate_compile_errors res arg then some res else none

-- The result of a call that compiles.
unfoldable pub static_arg_validation : ℕ → ℕ → Option ℕ
unfolding get_result get_code get_arg
static_arg_validation refserr fmtstrerr =
    get_result (if is_negative (get_code fmtstrerr) then get_code fmtstrerr else get_code refserr)
      (if is_negative (get_code fmtstrerr) then get_arg fmtstrerr else get_arg refserr)

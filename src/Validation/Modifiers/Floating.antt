-- ===== src/Validation/Modifiers/Floating.antt =====
-- `floating_point_format_validation` of include/malcpp/impl/c++11_basic_types.hpp. A stage is given
-- what is left of the modifiers, and the flags what they have read.
use mini_async_log_c.Common.{
  ℕ, ◌+◌, Bool, true, false, not, ◌||◌, List, [], ◌∷◌, ◌++◌, if◌then◌else◌, ◌==◌,
}
use mini_async_log_c.EntryParser.Types.{lit}
use mini_async_log_c.Validation.Literal.{has_char, has_repeated_chars}
use mini_async_log_c.Validation.Modifiers.{flag_chars, validate_specifiers}

abbrev pub width_chars : List ℕ
width_chars = lit ".0123456789"

abbrev pub specifier_chars : List ℕ
specifier_chars = lit "fFeEgGaA"

-- From the number of dots that were read.
unfoldable pub validate_width_precision : ℕ → List ℕ → Bool
unfolding has_char validate_specifiers
validate_width_precision has_dot [] = true
validate_width_precision has_dot (c ∷ rest) =
    let next = validate_width_precision (if c == b'.' then has_dot + 1 else has_dot) rest in
    if has_char width_chars c
    then (if has_dot == 0 || not (c == b'.') then next else false)
    else validate_specifiers specifier_chars (c ∷ rest)

unfoldable pub validate_flags : List ℕ → List ℕ → Bool
unfolding has_char has_repeated_chars validate_width_precision
validate_flags stage [] = not (has_repeated_chars stage)
validate_flags stage (c ∷ rest) =
    let next = validate_flags (stage ++ (c ∷ [])) rest in
    if has_char flag_chars c
    then next
    else if has_repeated_chars stage
    then false
    else validate_width_precision 0 (c ∷ rest)

-- `validate_format_modifiers`
unfoldable pub validate : List ℕ → Bool
unfolding validate_flags
validate [] = true
validate (c ∷ rest) = validate_flags [] (c ∷ rest)

-- ===== src/Validation/Modifiers.antt =====
-- include/malcpp/impl/c++11_basic_types.hpp: the characters between the braces of a placeholder, and the
-- stage that the validations of integers and of floating points share.
pub mod Integral
pub mod Floating
use mini_async_log_c.Common.{ℕ, Bool, true, false, List, [], ◌∷◌}
use mini_async_log_c.EntryParser.Types.{lit}
use mini_async_log_c.Validation.Literal.{has_char}

abbrev pub flag_chars : List ℕ
flag_chars = lit " #+-0"

abbrev pub digit_chars : List ℕ
digit_chars = lit "0123456789"

unfoldable pub validate_specifiers : List ℕ → List ℕ → Bool
unfolding has_char
validate_specifiers modf [] = true
validate_specifiers modf (c ∷ []) = has_char modf c
validate_specifiers modf (c ∷ d ∷ rest) = false

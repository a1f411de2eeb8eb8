-- ===== src/Validation/Modifiers/Integral.antt =====
-- `integral_format_validation` of include/malcpp/impl/c++11_basic_types.hpp. A stage is given what is
-- left of the modifiers, and of itself what it has read (`stage`) or how many characters these are
-- (`beg - stgbeg`).
use mini_async_log_c.Common.{
  ℕ, suc, Bool, true, false, not, ◌&&◌, ◌||◌, List, [], ◌∷◌, ◌++◌, if◌then◌else◌, ltb, leb, ◌==◌,
}
use mini_async_log_c.EntryParser.Types.{lit}
use mini_async_log_c.Validation.Literal.{has_char, has_repeated_chars}
use mini_async_log_c.Validation.Modifiers.{flag_chars, digit_chars, validate_specifiers}

abbrev pub precision_chars : List ℕ
precision_chars = lit ".w0123456789"

abbrev pub specifier_chars : List ℕ
specifier_chars = lit "xXo"

-- The character behind one: behind the last the placeholder is closed.
abbrev pub next_char : List ℕ → ℕ
next_char [] = b'}'
next_char (c ∷ rest) = c

abbrev pub is_digit : ℕ → Bool
is_digit c = leb b'0' c && leb c b'9'

-- The tests on a character of the stage, from its place in the stage.
unfoldable pub misplaced : ℕ → ℕ → ℕ → Bool
misplaced n c next =
    c == b'.' && not (n == 0)
    || (c == b'w' && not (n == 1))
    || (is_digit c && (next == b'w' || n == 0))

unfoldable pub validate_precision : ℕ → List ℕ → Bool
unfolding misplaced has_char validate_specifiers
validate_precision n [] = ltb 1 n && leb n 3
validate_precision n (c ∷ rest) =
    let next = validate_precision (suc n) rest in
    if ltb 3 n
    then false
    else if has_char precision_chars c
    then (if misplaced n c (next_char rest) then false else next)
    else if n == 1
    then false
    else validate_specifiers specifier_chars (c ∷ rest)

unfoldable pub validate_width : ℕ → List ℕ → Bool
unfolding has_char validate_precision
validate_width n [] = leb n 2
validate_width n (c ∷ rest) =
    let next = validate_width (suc n) rest in
    if ltb 2 n
    then false
    else if has_char digit_chars c
    then next
    else validate_precision 0 (c ∷ rest)

unfoldable pub validate_flags : List ℕ → List ℕ → Bool
unfolding has_char has_repeated_chars validate_width
validate_flags stage [] = not (has_repeated_chars stage)
validate_flags stage (c ∷ rest) =
    let next = validate_flags (stage ++ (c ∷ [])) rest in
    if has_char flag_chars c
    then next
    else if has_repeated_chars stage
    then false
    else validate_width 0 (c ∷ rest)

-- `validate_format_modifiers`
unfoldable pub validate : List ℕ → Bool
unfolding validate_flags
validate [] = true
validate (c ∷ rest) = validate_flags [] (c ∷ rest)

-- ===== src/Validation/Characters.antt =====
-- The characters that the validations of include/malcpp/impl/c++11_basic_types.hpp accept.
use mathlib.Core.Path.{subst}
use mathlib.Core.Bool.{false≢true}
use mini_async_log_c.Common.{
  ℕ, suc, ◌+◌, not, ◌||◌, ◌≡◌, refl, Bool, true, false, inl, inr, Option, none, some, List, [], ◌∷◌,
  if◌then◌else◌, Bool-cases, ==→eq, ◌==◌, All, arith,
}
use mini_async_log_c.EntryParser.Text.Render.{NoOpen}
use mini_async_log_c.Validation.Literal.{find, has_char}
use mini_async_log_c.Validation.Modifiers.{flag_chars, digit_chars, validate_specifiers}
use mini_async_log_c.Validation.Modifiers.Integral
use mini_async_log_c.Validation.Modifiers.Floating
use mini_async_log_c.Validation.LoggedTypes.{
  Builtin, float, double, LoggedType, builtin, smartptr_vector, no_modifiers, validate_builtin,
  validate_format_modifiers,
}

abbrev is_some : Option ℕ → Bool
is_some none = false
is_some (some i) = true

-- What holds of each character of a table holds of a character that is found in it.
find-All : (P : ℕ → Type 0) (l : List ℕ) (c beg : ℕ) → All P l → is_some (find c l beg) ≡ true → P c
unfolding find
find-All P [] c beg h e = absurd (cc)
find-All P (x ∷ xs) c beg h e = elim (Bool-cases (x == c)) [
  | inl is ↦ subst P (==→eq x c is) h.0
  | inr is_not ↦ find-All P xs c (suc beg) h.1 (rw (find, is_not) at e)
]

pub has_char-All : (P : ℕ → Type 0) (l : List ℕ) (c : ℕ) → All P l → has_char l c ≡ true → P c
unfolding has_char
has_char-All P l c h e = find-All P l c 0 h (same (find c l 0) e)
  where
    same : (r : Option ℕ) → elim r [ none ↦ false | some i ↦ true ] ≡ true → is_some r ≡ true
    same none e = e
    same (some i) e = refl

-- One of a test's two outcomes is the case where it is true.
pub if-true :
    (P : Type 0) (b x y : Bool)
    → (b ≡ true → x ≡ true → P)
    → (b ≡ false → y ≡ true → P)
    → (if b then x else y) ≡ true
    → P
if-true P true x y h k e = h refl e
if-true P false x y h k e = k refl e

pub unless-true : (P : Type 0) (b y : Bool) → (y ≡ true → P) → (if b then false else y) ≡ true → P
unless-true P true y k e = absurd (false≢true e)
unless-true P false y k e = k e

pub when-true :
    (P : Type 0) (b x : Bool) → (b ≡ true → x ≡ true → P) → (if b then x else false) ≡ true → P
when-true P true x h e = h refl e
when-true P false x h e = absurd (false≢true e)

-- No table has an opening brace.
abbrev HasNone : List ℕ → Type 0
HasNone l = All NoOpen l

unopened : (l : List ℕ) (c : ℕ) → HasNone l → has_char l c ≡ true → NoOpen c
unopened l c = has_char-All NoOpen l c

validate_specifiers-NoOpen :
    (modf l : List ℕ) → HasNone modf → validate_specifiers modf l ≡ true → All NoOpen l
unfolding validate_specifiers
validate_specifiers-NoOpen modf [] h e = tt
validate_specifiers-NoOpen modf (c ∷ []) h e = (unopened modf c h e, tt)
validate_specifiers-NoOpen modf (c ∷ d ∷ rest) h e = absurd (cc)

validate_precision-NoOpen :
    (n : ℕ) (l : List ℕ) → Integral.validate_precision n l ≡ true → All NoOpen l
unfolding Integral.validate_precision
validate_precision-NoOpen n [] e = tt
validate_precision-NoOpen n (c ∷ rest) e =
    unless-true _ _ _
      (if-true _ _ _ _
        (λ in_table. unless-true _ _ _ (λ d. (
          unopened Integral.precision_chars c (ground arith) in_table,
          validate_precision-NoOpen (suc n) rest d,
        )))
        (λ b.
          unless-true _ _ _
            (λ f. validate_specifiers-NoOpen Integral.specifier_chars (c ∷ rest) (ground arith) f)))
      e

validate_width-NoOpen : (n : ℕ) (l : List ℕ) → Integral.validate_width n l ≡ true → All NoOpen l
unfolding Integral.validate_width
validate_width-NoOpen n [] e = tt
validate_width-NoOpen n (c ∷ rest) e =
    unless-true _ _ _
      (if-true _ _ _ _
        (λ in_table d.
          (unopened digit_chars c (ground arith) in_table, validate_width-NoOpen (suc n) rest d))
        (λ b d. validate_precision-NoOpen 0 (c ∷ rest) d))
      e

validate_width_precision-NoOpen :
    (dots : ℕ) (l : List ℕ) → Floating.validate_width_precision dots l ≡ true → All NoOpen l
unfolding Floating.validate_width_precision
validate_width_precision-NoOpen dots [] e = tt
validate_width_precision-NoOpen dots (c ∷ rest) e =
    if-true _ _ _ _
      (λ in_table. when-true _ (dots == 0 || not (c == b'.')) _ (λ (b : _ ≡ true) d. (
        unopened Floating.width_chars c (ground arith) in_table,
        validate_width_precision-NoOpen (if c == b'.' then dots + 1 else dots) rest d,
      )))
      (λ b d. validate_specifiers-NoOpen Floating.specifier_chars (c ∷ rest) (ground arith) d) e

integral_flags-NoOpen : (stage l : List ℕ) → Integral.validate_flags stage l ≡ true → All NoOpen l
unfolding Integral.validate_flags
integral_flags-NoOpen stage [] e = tt
integral_flags-NoOpen stage (c ∷ rest) e =
    if-true _ _ _ _
      (λ in_table d.
        (unopened flag_chars c (ground arith) in_table, integral_flags-NoOpen _ rest d))
      (λ b. unless-true _ _ _ (λ f. validate_width-NoOpen 0 (c ∷ rest) f)) e

floating_flags-NoOpen : (stage l : List ℕ) → Floating.validate_flags stage l ≡ true → All NoOpen l
unfolding Floating.validate_flags
floating_flags-NoOpen stage [] e = tt
floating_flags-NoOpen stage (c ∷ rest) e =
    if-true _ _ _ _
      (λ in_table d.
        (unopened flag_chars c (ground arith) in_table, floating_flags-NoOpen _ rest d))
      (λ b. unless-true _ _ _ (λ f. validate_width_precision-NoOpen 0 (c ∷ rest) f)) e

integral-NoOpen : (l : List ℕ) → Integral.validate l ≡ true → All NoOpen l
unfolding Integral.validate
integral-NoOpen [] e = tt
integral-NoOpen (c ∷ rest) e = integral_flags-NoOpen [] (c ∷ rest) e

floating-NoOpen : (l : List ℕ) → Floating.validate l ≡ true → All NoOpen l
unfolding Floating.validate
floating-NoOpen [] e = tt
floating-NoOpen (c ∷ rest) e = floating_flags-NoOpen [] (c ∷ rest) e

builtin-NoOpen : (b : Builtin) (l : List ℕ) → validate_builtin b l ≡ true → All NoOpen l
unfolding validate_builtin
builtin-NoOpen float l e = floating-NoOpen l e
builtin-NoOpen double l e = floating-NoOpen l e
builtin-NoOpen _ l e = integral-NoOpen l e

no_modifiers-NoOpen : (l : List ℕ) → no_modifiers l ≡ true → All NoOpen l
no_modifiers-NoOpen [] e = tt
no_modifiers-NoOpen (c ∷ rest) e = absurd (cc)

-- Valid modifiers have no opening brace.
pub validate_format_modifiers-NoOpen :
    (t : LoggedType) (l : List ℕ) → validate_format_modifiers t l ≡ true → All NoOpen l
unfolding validate_format_modifiers
validate_format_modifiers-NoOpen (builtin b) l e = builtin-NoOpen b l e
validate_format_modifiers-NoOpen (smartptr_vector b) l e = builtin-NoOpen b l e
validate_format_modifiers-NoOpen _ l e = no_modifiers-NoOpen l e

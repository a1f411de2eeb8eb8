-- ===== src/Validation/Floats.antt =====
-- The modifiers that include/malcpp/impl/c++11_basic_types.hpp accepts for a number with a floating point
-- in `build_float_format_on_ep_fmt` of src/malc/entry_parser.c.
use mini_async_log_c.Common.{
  ℕ, zero, suc, ◌+◌, ◌-◌, ◌≤◌, ◌≡◌, refl, sym, true, false, not, ◌||◌, inl, inr, ◌⊎◌, Option, none,
  some, List, [], ◌∷◌, ◌++◌, if◌then◌else◌, ◌==◌, length, All, Result, ok, err, arith,
}
use mini_async_log_c.EntryParser.Types.{
  EntryParser, Printing, Ep, after, append_fmt, append_fmt_unchecked,
}
use mini_async_log_c.EntryParser.FloatFormat.{
  find_order, next_order, last, push, round_of, round, build_loop, build_float_format,
}
use mini_async_log_c.EntryParser.FloatFormat.Laws.{HasOrder, IsFlag, IsFlag-round}
use mini_async_log_c.EntryParser.Text.Render.{after_cong}
use mini_async_log_c.Validation.Literal.{has_char}
use mini_async_log_c.Validation.Modifiers.{flag_chars, validate_specifiers}
use mini_async_log_c.Validation.Modifiers.Floating
use mini_async_log_c.Validation.Characters.{has_char-All, if-true, unless-true, when-true}

-- The type that is missing at the end of the modifiers.
abbrev pub missing_type : List ℕ → List ℕ
missing_type [] = b'f' ∷ []
missing_type (c ∷ []) = if has_char Floating.specifier_chars c then [] else b'f' ∷ []
missing_type (c ∷ d ∷ rest) = missing_type (d ∷ rest)

infixr 4 ◌&◌
abbrev ◌&◌ : {P Q : Type 0} → P → Q → P × Q
p & q = (p, q)

abbrev IsUntyped : ℕ → Type 0
IsUntyped c = has_char Floating.specifier_chars c ≡ false

missing_type-cons :
    (c : ℕ) (rest : List ℕ) → IsUntyped c → missing_type (c ∷ rest) ≡ missing_type rest
missing_type-cons c [] h = rw (h) refl
missing_type-cons c (d ∷ rest) h = refl

-- A character of a width and a precision. A 0 has the order of the flags.
abbrev IsWidth : ℕ → Type 0
IsWidth c = (HasOrder c b'b' ⊎ ((c ≡ b'0') × HasOrder c b'a')) × IsUntyped c

flag_chars-IsFlag : All (λ c. IsFlag c × IsUntyped c) flag_chars
unfolding find_order has_char
flag_chars-IsFlag = (refl, refl) & (refl, refl) & (refl, refl) & (refl, refl) & (refl, refl) & tt

width_chars-IsWidth : All IsWidth Floating.width_chars
unfolding find_order has_char
width_chars-IsWidth =
    (inl refl, refl)
    & (inr (refl, refl), refl)
    & (inl refl, refl)
    & (inl refl, refl)
    & (inl refl, refl)
    & (inl refl, refl)
    & (inl refl, refl)
    & (inl refl, refl)
    & (inl refl, refl)
    & (inl refl, refl)
    & (inl refl, refl)
    & tt

specifier_chars-HasOrder : All (λ c. HasOrder c b'c') Floating.specifier_chars
unfolding find_order
specifier_chars-HasOrder = refl & refl & refl & refl & refl & refl & refl & refl & tt

-- The dots with the one that a character may be.
abbrev counted : ℕ → ℕ → ℕ
counted c dots = if c == b'.' then dots + 1 else dots

IsWidth-round :
    (c order dots : ℕ)
    → IsWidth c
    → order ≤ b'b'
    → (dots == 0 || not (c == b'.')) ≡ true
    → (o : ℕ) × (o ≤ b'b') × (round c order dots ≡ push o (counted c dots))
unfolding round round_of next_order
IsWidth-round c order dots (inl h, u) small one = (b'b', omega arith, rw (h) ground arith)
IsWidth-round c order dots (inr (z, h), u) small one =
    (next_order order b'0' b'a', ground arith, rw (h) ground arith)

last-round : (c order dots : ℕ) → HasOrder c b'c' → order ≤ b'b' → round c order dots ≡ last
unfolding round round_of next_order
last-round c order dots h small = rw (h) ground arith

module _ (out : Printing) where
  -- The appends of characters, one by one.
  abbrev pub appends : List ℕ → Ep (Unit {0})
  appends [] ep = some (ep, ok tt)
  appends (c ∷ rest) ep = after (append_fmt out (c ∷ []) ep) (λ u. appends rest)

  after-ok : (m : Option (EntryParser × Result (Unit {0}))) → after m (λ u ep. some (ep, ok tt)) ≡ m
  after-ok none = refl
  after-ok (some (ep, ok tt)) = refl
  after-ok (some (ep, err e)) = refl

  -- The loop appends the modifiers and the type that is missing.
  abbrev Builds : List ℕ → ℕ → ℕ → Type 0
  Builds l order dots =
      (fuel : ℕ) (ep : EntryParser)
      → suc (length l) ≤ fuel
      → build_loop out fuel l order dots ep ≡ appends (l ++ missing_type l) ep

  Builds-end : (order dots : ℕ) → Builds [] order dots
  unfolding build_loop
  Builds-end order dots zero ep h = absurd (omega arith)
  Builds-end order dots (suc fuel) ep h = sym (after-ok _)

  Builds-push :
      (c : ℕ) (rest : List ℕ) (order dots o d : ℕ)
      → IsUntyped c
      → round c order dots ≡ push o d
      → Builds rest o d
      → Builds (c ∷ rest) order dots
  unfolding build_loop
  Builds-push c rest order dots o d u e k zero ep h = absurd (omega arith)
  Builds-push c rest order dots o d u e k (suc fuel) ep h =
      rw (build_loop, e, missing_type-cons c rest u)
        (after_cong _ _ _ (λ u ep. k fuel ep (omega arith)))

  Builds-last :
      (c order dots : ℕ)
      → has_char Floating.specifier_chars c ≡ true
      → order ≤ b'b'
      → Builds (c ∷ []) order dots
  unfolding build_loop
  Builds-last c order dots e small zero ep h = absurd (omega arith)
  Builds-last c order dots e small (suc fuel) ep h =
      rw
        (
          build_loop,
          last-round c order dots
              (has_char-All (λ c. HasOrder c b'c') Floating.specifier_chars c
                specifier_chars-HasOrder e)
              small,
          e,
        )
        (sym (after-ok _))

  Builds-specifiers :
      (c : ℕ) (rest : List ℕ) (order dots : ℕ)
      → validate_specifiers Floating.specifier_chars (c ∷ rest) ≡ true
      → order ≤ b'b'
      → Builds (c ∷ rest) order dots
  unfolding validate_specifiers
  Builds-specifiers c [] order dots e small = Builds-last c order dots e small
  Builds-specifiers c (d ∷ rest) order dots e small = absurd (cc)

  Builds-width :
      (l : List ℕ) (order dots : ℕ)
      → order ≤ b'b'
      → Floating.validate_width_precision dots l ≡ true
      → Builds l order dots
  unfolding Floating.validate_width_precision
  Builds-width [] order dots small e = Builds-end order dots
  Builds-width (c ∷ rest) order dots small e =
      if-true _ _ _ _
        (λ in_table. when-true _ (dots == 0 || not (c == b'.')) _ (λ (one : _ ≡ true) next.
          let is = has_char-All IsWidth Floating.width_chars c width_chars-IsWidth in_table in
          let (o, small', r) = IsWidth-round c order dots is small one in
          Builds-push c rest order dots o (counted c dots) is.1 r
            (Builds-width rest o (counted c dots) small' next)))
        (λ b spec. Builds-specifiers c rest order dots spec small) e

  Builds-flags :
      (stage l : List ℕ) (order : ℕ)
      → order ≤ b'a'
      → Floating.validate_flags stage l ≡ true
      → Builds l order 0
  unfolding Floating.validate_flags
  Builds-flags stage [] order small e = Builds-end order 0
  Builds-flags stage (c ∷ rest) order small e =
      if-true _ _ _ _
        (λ in_table next.
          let is =
            has_char-All (λ c. IsFlag c × IsUntyped c) flag_chars c flag_chars-IsFlag in_table in
          Builds-push c rest order 0 b'a' 0 is.1 (IsFlag-round c order small is.0)
            (Builds-flags (stage ++ (c ∷ [])) rest b'a' (omega arith) next))
        (λ b. unless-true _ _ _ (λ next. Builds-width (c ∷ rest) order 0 (omega arith) next)) e

  validate-Builds : (l : List ℕ) → Floating.validate l ≡ true → Builds l (b'a' - 1) 0
  unfolding Floating.validate
  validate-Builds [] e = Builds-end 96 0
  validate-Builds (c ∷ rest) e = Builds-flags [] (c ∷ rest) 96 (omega arith) e

  -- For modifiers that the compiler's validation accepts for a number with a floating point, the
  -- format for `printf` is made by appending, behind the '%', each of them in its place and an 'f'
  -- when they have no type, until an append fails: no modifier is passed over and the loop ends.
  pub build_float_format-appends :
      (l : List ℕ) (ep : EntryParser)
      → Floating.validate l ≡ true
      → build_float_format out l ep
        ≡ appends (l ++ missing_type l) (append_fmt_unchecked out (b'%' ∷ []) ep)
  unfolding build_float_format
  build_float_format-appends l ep e = validate-Builds l e (suc (length l)) _ (omega arith)

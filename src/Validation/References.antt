-- ===== src/Validation/References.antt =====
-- `refvalues` of include/malcpp/impl/compile_time_validation.hpp: the references that a call passes and
-- their destructor.
use mathlib.Core.Bool.{false≢true}
use mini_async_log_c.Common.{
  ℕ, suc, ◌+◌, ◌<◌, ◌≡◌, refl, sym, ap, ◌∙◌, Bool, true, false, inl, inr, ◌⊎◌, Bool-cases, List, [],
  ◌∷◌, ◌++◌, if◌then◌else◌, arith,
}
use mini_async_log_c.Validation.LoggedTypes.{LoggedType, malc_refdtor, is_refdtor, is_refvalue}
use mini_async_log_c.Validation.{
  success_with_refs, success, code, make, get_code, do_validate, validate_references,
}

abbrev pub count : (LoggedType → Bool) → List LoggedType → ℕ
count p [] = 0
count p (t ∷ types) = let n = count p types in if p t then suc n else n

abbrev pub ends : Bool → List LoggedType → Bool
ends last [] = last
ends last (t ∷ types) = ends (is_refdtor t) types

counted : (b : Bool) (n m : ℕ) → (if b then n + 1 else n) + m ≡ n + (if b then suc m else m)
counted true n m = omega arith
counted false n m = omega arith

-- The result from the counts.
abbrev pub result : ℕ → ℕ → Bool → ℕ
result reftypes dtors last = do_validate [] reftypes dtors last

result_cong : (r r' d d' : ℕ) (last : Bool) → r ≡ r' → d ≡ d' → result r d last ≡ result r' d' last
result_cong r r' d d' last e f = ap (λ x. result x d last) e ∙ ap (λ x. result r' x last) f

do_validate-counts :
    (types : List LoggedType) (reftypes dtors : ℕ) (last : Bool)
    → do_validate types reftypes dtors last
      ≡ result
          (reftypes + count is_refvalue types)
          (dtors + count is_refdtor types)
          (ends last types)
unfolding do_validate
do_validate-counts [] reftypes dtors last =
    result_cong reftypes (reftypes + 0) dtors (dtors + 0) last (omega arith) (omega arith)
do_validate-counts (t ∷ types) reftypes dtors last =
    do_validate-counts types _ _ (is_refdtor t)
    ∙ result_cong _ _ _ _ (ends (is_refdtor t) types)
        (counted (is_refvalue t) reftypes (count is_refvalue types))
        (counted (is_refdtor t) dtors (count is_refdtor types))

-- What the counts are when the result is a success.
with_references :
    (reftypes dtors : ℕ) (last : Bool)
    → get_code (do_validate [] reftypes dtors last) ≡ code success_with_refs
    → (0 < reftypes) × (dtors ≡ 1) × (last ≡ true)
unfolding do_validate get_code make
with_references reftypes dtors last e = ground arith

without_references :
    (reftypes dtors : ℕ) (last : Bool)
    → get_code (do_validate [] reftypes dtors last) ≡ code success
    → (reftypes ≡ 0) × (dtors ≡ 0)
unfolding do_validate get_code make
without_references reftypes dtors last e = ground arith

-- The only destructor is the last argument.
abbrev IsLast : List LoggedType → Type 0
IsLast types =
    (front : List LoggedType) × (types ≡ front ++ (malc_refdtor ∷ []))
    × (count is_refdtor front ≡ 0)
    × (count is_refvalue front ≡ count is_refvalue types)

malc_refdtor_only : (t : LoggedType) → is_refdtor t ≡ true → t ≡ malc_refdtor
malc_refdtor_only malc_refdtor e = refl
malc_refdtor_only t e = absurd (false≢true e)

refdtor_no_ref : (t : LoggedType) → is_refdtor t ≡ true → is_refvalue t ≡ false
refdtor_no_ref malc_refdtor e = refl
refdtor_no_ref t e = absurd (false≢true e)

ends-some : (types : List LoggedType) → ends false types ≡ true → 0 < count is_refdtor types
ends-some [] e = absurd (false≢true e)
ends-some (t ∷ []) e = rw (e) (omega arith)
ends-some (t ∷ u ∷ types) e = some (is_refdtor t) (ends-some (u ∷ types) e)
  where
    some : (b : Bool) {n : ℕ} → 0 < n → 0 < (if b then suc n else n)
    some true h = omega arith
    some false h = h

ends-IsLast :
    (types : List LoggedType) → count is_refdtor types ≡ 1 → ends false types ≡ true → IsLast types
ends-IsLast [] n e = absurd (false≢true e)
ends-IsLast (t ∷ []) n e =
    ([], ap (λ x. x ∷ []) (malc_refdtor_only t e), refl, rw (refdtor_no_ref t e) refl)
ends-IsLast (t ∷ u ∷ types) n e = at (ends-IsLast (u ∷ types)) (Bool-cases (is_refdtor t))
  where
    at :
        (count is_refdtor (u ∷ types) ≡ 1 → ends false (u ∷ types) ≡ true → IsLast (u ∷ types))
        → (is_refdtor t ≡ true) ⊎ (is_refdtor t ≡ false)
        → IsLast (t ∷ u ∷ types)
    at rest (inl is) = absurd (omega (arith, ends-some (u ∷ types) e, rw (is) at n))
    at rest (inr is_not) =
        let (front, whole, none_in, refs) = rest (rw (is_not) at n) e in
        (t ∷ front, ap (◌∷◌ t) whole, rw (is_not) none_in, same refs)
      where
        same :
            {m n : ℕ}
            → m ≡ n
            → (if is_refvalue t then suc m else m) ≡ (if is_refvalue t then suc n else n)
        same h = rw (h) refl

counts :
    (types : List LoggedType) (e : ℕ)
    → get_code (validate_references types) ≡ e
    → get_code
        (result (0 + count is_refvalue types) (0 + count is_refdtor types) (ends false types))
      ≡ e
unfolding validate_references
counts types e eq = sym (ap get_code (do_validate-counts types 0 0 false)) ∙ eq

plus_zero : (n : ℕ) → 0 + n ≡ n
plus_zero n = omega arith

-- The code of the validation, from the counts.
pub validate_references-counts :
    (types : List LoggedType)
    → get_code (validate_references types)
      ≡ get_code (result (count is_refvalue types) (count is_refdtor types) (ends false types))
validate_references-counts types =
    sym (counts types _ refl)
    ∙ ap get_code (
        result_cong _ _ _ _ (ends false types) (plus_zero (count is_refvalue types))
          (plus_zero (count is_refdtor types)))

-- When the validation says that a call has references, the only destructor among its arguments is
-- the last of them, and there is a reference before it.
pub validate_references-last :
    (types : List LoggedType)
    → get_code (validate_references types) ≡ code success_with_refs
    → (front : List LoggedType) × (types ≡ front ++ (malc_refdtor ∷ []))
      × (count is_refdtor front ≡ 0)
      × (0 < count is_refvalue front)
validate_references-last types eq =
    let (some, one, last) = with_references _ _ _ (counts types _ eq) in
    let (front, whole, none_in, refs) = ends-IsLast types (omega (arith, one)) last in
    (front, whole, none_in, omega (arith, some, refs))

-- When the validation says that a call has none, it passes neither a reference nor a destructor.
pub validate_references-none :
    (types : List LoggedType)
    → get_code (validate_references types) ≡ code success
    → (count is_refvalue types ≡ 0) × (count is_refdtor types ≡ 0)
validate_references-none types eq =
    let (refs, dtors) = without_references _ _ (ends false types) (counts types _ eq) in
    (omega (arith, refs), omega (arith, dtors))

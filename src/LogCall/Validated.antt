-- ===== src/LogCall/Validated.antt =====
-- The assertions of include/malc/impl/c11.h on the references of a call, and those of
-- include/malcpp/impl/compile_time_validation.hpp.
use mini_async_log_c.Common.{
  ℕ, suc, ◌+◌, ◌≡◌, refl, sym, ap, ◌∙◌, Bool, true, false, not, ◌&&◌, ◌||◌, List, [], ◌∷◌,
  if◌then◌else◌, ◌==◌, arith,
}
use mini_async_log_c.Serial.Values.{Value, type_code, type_strref, type_memref, type_refdtor}
use mini_async_log_c.Validation.LoggedTypes.{
  Builtin, uint8, LoggedType, builtin, malc_strcp, builtin_type_id, type_id, is_refdtor,
  is_refvalue,
}
use mini_async_log_c.Validation.{
  success, success_with_refs, code, make, get_code, do_validate, validate_references,
}
use mini_async_log_c.Validation.References.{count, ends, result, validate_references-counts}
use mini_async_log_c.Validation.Aligned.{CalledWith}
use mini_async_log_c.LogCall.{
  is_cleanup, is_ref, get_cleanup_count, get_ref_count, last_is_cleanup, validate_ref_and_cleanup,
}

builtin_refdtor : (b : Builtin) → (builtin_type_id b == type_refdtor) ≡ false
builtin_refdtor uint8 = refl
builtin_refdtor _ = refl

builtin_refvalue :
    (b : Builtin) → (builtin_type_id b == type_strref || builtin_type_id b == type_memref) ≡ false
builtin_refvalue uint8 = refl
builtin_refvalue _ = refl

is_refdtor-id : (t : LoggedType) → is_refdtor t ≡ (type_id t == type_refdtor)
is_refdtor-id (builtin b) = sym (builtin_refdtor b)
is_refdtor-id malc_strcp = refl
is_refdtor-id _ = refl

is_refvalue-id :
    (t : LoggedType) → is_refvalue t ≡ (type_id t == type_strref || type_id t == type_memref)
is_refvalue-id (builtin b) = sym (builtin_refvalue b)
is_refvalue-id malc_strcp = refl
is_refvalue-id _ = refl

is_refdtor-is_cleanup :
    (t : LoggedType) (v : Value) → type_id t ≡ type_code v → is_refdtor t ≡ is_cleanup v
is_refdtor-is_cleanup t v e = is_refdtor-id t ∙ ap (λ c. c == type_refdtor) e

is_refvalue-is_ref :
    (t : LoggedType) (v : Value) → type_id t ≡ type_code v → is_refvalue t ≡ is_ref v
is_refvalue-is_ref t v e = is_refvalue-id t ∙ ap (λ c. c == type_strref || c == type_memref) e

one_more :
    {b b' : Bool} {m n : ℕ} → b ≡ b' → m ≡ n → (if b then suc m else m) ≡ (if b' then 1 else 0) + n
one_more {b} {b'} {m} {n} e h = rw (e) (at b')
  where
    at : (b : Bool) → (if b then suc m else m) ≡ (if b then 1 else 0) + n
    at true = omega (arith, h)
    at false = omega (arith, h)

count-get_cleanup_count :
    (types : List LoggedType) (vs : List Value)
    → CalledWith types vs
    → count is_refdtor types ≡ get_cleanup_count vs
unfolding get_cleanup_count
count-get_cleanup_count [] [] h = refl
count-get_cleanup_count [] (v ∷ vs) h = absurd h
count-get_cleanup_count (t ∷ types) [] h = absurd h
count-get_cleanup_count (t ∷ types) (v ∷ vs) h =
    one_more (is_refdtor-is_cleanup t v h.0) (count-get_cleanup_count types vs h.1)

count-get_ref_count :
    (types : List LoggedType) (vs : List Value)
    → CalledWith types vs
    → count is_refvalue types ≡ get_ref_count vs
unfolding get_ref_count
count-get_ref_count [] [] h = refl
count-get_ref_count [] (v ∷ vs) h = absurd h
count-get_ref_count (t ∷ types) [] h = absurd h
count-get_ref_count (t ∷ types) (v ∷ vs) h =
    one_more (is_refvalue-is_ref t v h.0) (count-get_ref_count types vs h.1)

ends-last_is_cleanup :
    (types : List LoggedType) (vs : List Value)
    → CalledWith types vs
    → ends false types ≡ last_is_cleanup vs
unfolding last_is_cleanup
ends-last_is_cleanup [] [] h = refl
ends-last_is_cleanup [] (v ∷ vs) h = absurd h
ends-last_is_cleanup (t ∷ types) [] h = absurd h
ends-last_is_cleanup (t ∷ []) (v ∷ []) h = is_refdtor-is_cleanup t v h.0
ends-last_is_cleanup (t ∷ []) (v ∷ w ∷ vs) h = absurd h.1
ends-last_is_cleanup (t ∷ u ∷ types) (v ∷ []) h = absurd h.1
ends-last_is_cleanup (t ∷ u ∷ types) (v ∷ w ∷ vs) h = ends-last_is_cleanup (u ∷ types) (w ∷ vs) h.1

-- The assertions, from the counts.
abbrev asserted : ℕ → ℕ → Bool → Bool
asserted cleanups refs last =
    ((cleanups == 0 && refs == 0) || (cleanups == 1 && not (refs == 0))) && (cleanups == 0 || last)

result_without :
    (refs cleanups : ℕ) (last : Bool)
    → (get_code (result refs cleanups last) == code success)
      ≡ (asserted cleanups refs last && refs == 0)
unfolding do_validate get_code make
result_without refs cleanups last = ground arith

result_with :
    (refs cleanups : ℕ) (last : Bool)
    → (get_code (result refs cleanups last) == code success_with_refs)
      ≡ (asserted cleanups refs last && not (refs == 0))
unfolding do_validate get_code make
result_with refs cleanups last = ground arith

module _ (types : List LoggedType) (vs : List Value) (called : CalledWith types vs) where
  same_counts :
      (e : ℕ)
      → (get_code (validate_references types) == e)
        ≡ (get_code (result (get_ref_count vs) (get_cleanup_count vs) (last_is_cleanup vs)) == e)
  same_counts e =
      rw
        (
          sym (count-get_ref_count types vs called),
          sym (count-get_cleanup_count types vs called),
          sym (ends-last_is_cleanup types vs called),
        )
        (ap (λ c. c == e) (validate_references-counts types))

  -- The assertions of the C macro on the references of a call hold just when the validation of the
  -- C++ interface succeeds for their types, and this says that there are references just when
  -- there are.
  pub validate_references-agrees :
      ((get_code (validate_references types) == code success)
        ≡ (validate_ref_and_cleanup vs && get_ref_count vs == 0))
      × ((get_code (validate_references types) == code success_with_refs)
          ≡ (validate_ref_and_cleanup vs && not (get_ref_count vs == 0)))
  unfolding validate_ref_and_cleanup
  validate_references-agrees = (
    same_counts (code success)
        ∙ result_without (get_ref_count vs) (get_cleanup_count vs) (last_is_cleanup vs),
    same_counts (code success_with_refs)
        ∙ result_with (get_ref_count vs) (get_cleanup_count vs) (last_is_cleanup vs),
  )

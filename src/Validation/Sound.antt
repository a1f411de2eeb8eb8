-- ===== src/Validation/Sound.antt =====
-- include/malcpp/impl/compile_time_validation.hpp: the formats that pass.
use mini_async_log_c.Common.{
  ℕ, suc, ◌+◌, ◌^◌, ◌<◌, ◌≡◌, ◌≢◌, refl, sym, ap, ◌∙◌, true, false, inl, inr, Bool-cases, List, [],
  ◌∷◌, ◌++◌, append_assoc, append-nil, drop_add, ◌⊎◌, if◌then◌else◌, ◌==◌, ==→ne, length, drop, All,
  arith,
}
use mini_async_log_c.Serial.Values.{type_error}
use mini_async_log_c.EntryParser.Text.Render.{
  Format, plain, brace, place, written, IsFormat, NoOpen, NoBrace,
}
use mini_async_log_c.Validation.LoggedTypes.{
  LoggedType, type_id, no_modifiers, validate_format_modifiers, is_refdtor,
}
use mini_async_log_c.Validation.Places.{
  Prefix, last, escaped, prefix_text, IsPrefix, Placed, validate_next-Placed,
}
use mini_async_log_c.Validation.Characters.{validate_format_modifiers-NoOpen}
use mini_async_log_c.Validation.Codes.{get_code-make}
use mini_async_log_c.Validation.{
  Fmterr, success_with_refs, success, notfound, excess_placeholders, excess_arguments,
  unclosed_lbracket, invalid_type, code, make, get_code, Next, behind, error, process_last_error,
  verify_next, iterate, validate,
}

-- The types of the arguments that a placeholder prints.
abbrev pub printed_types : List LoggedType → List LoggedType
printed_types [] = []
printed_types (t ∷ types) = if is_refdtor t then printed_types types else t ∷ printed_types types

-- A placeholder for each type, with modifiers that are valid for it.
abbrev pub Accepts : Format → List LoggedType → Type 0
Accepts (plain t) [] = Unit
Accepts (plain t) (ty ∷ types) = ⊥
Accepts (brace t f) types = Accepts f types
Accepts (place t spec f) [] = ⊥
Accepts (place t spec f) (ty ∷ types) =
    (type_id ty ≢ type_error) × (validate_format_modifiers ty spec ≡ true) × Accepts f types

attach : Prefix → (List ℕ → Format) → Format
attach (last t) f = f t
attach (escaped t p) f = brace t (attach p f)

written-attach :
    (p : Prefix) (f : List ℕ → Format) (rest : List ℕ)
    → ((t : List ℕ) → written (f t) ≡ t ++ rest)
    → written (attach p f) ≡ prefix_text p ++ rest
unfolding attach
written-attach (last t) f rest h = h t
written-attach (escaped t p) f rest h =
    rw (written-attach p f rest h) (sym (append_assoc t (b'{' ∷ b'{' ∷ prefix_text p) rest))

attach-IsFormat :
    (p : Prefix) (f : List ℕ → Format)
    → IsPrefix p
    → ((t : List ℕ) → All NoOpen t → IsFormat (f t))
    → IsFormat (attach p f)
unfolding attach
attach-IsFormat (last t) f k h = h t k
attach-IsFormat (escaped t p) f k h = (k.0, attach-IsFormat p f k.1 h)

attach-Accepts :
    (p : Prefix) (f : List ℕ → Format) (types : List LoggedType)
    → ((t : List ℕ) → Accepts (f t) types)
    → Accepts (attach p f) types
unfolding attach
attach-Accepts (last t) f types h = h t
attach-Accepts (escaped t p) f types h = attach-Accepts p f types h

no_braces : (l : List ℕ) → All NoOpen l → All (λ x. x ≢ b'}') l → All NoBrace l
no_braces [] h k = tt
no_braces (c ∷ l) h k = ((h.0, k.0), no_braces l h.1 k.1)

-- A format that is the text, with a placeholder for each type.
abbrev Reads : List LoggedType → List ℕ → Type 0
Reads types l = (f : Format) × IsFormat f × (written f ≡ l) × Accepts f types

not_success : (e : Fmterr) (n : ℕ) → n < 2 ^ 16 → get_code (make e n) ≡ code success → code e ≡ 0
not_success e n h eq = sym (get_code-make e n h) ∙ eq

last-Reads :
    (n : ℕ) (l : List ℕ) (r : Next)
    → n < 2 ^ 16
    → Placed no_modifiers l r
    → get_code (process_last_error n r) ≡ code success
    → Reads [] l
unfolding process_last_error
last-Reads n l (error notfound) h (p, k, e) eq = (
  attach p plain,
  attach-IsFormat p plain k (λ t a. a),
  written-attach p plain [] (λ t. sym (append-nil t)) ∙ append-nil (prefix_text p) ∙ sym e,
  attach-Accepts p plain [] (λ t. tt),
)
last-Reads n l (error unclosed_lbracket) h k eq =
    absurd (omega (arith, not_success unclosed_lbracket n h eq))
last-Reads n l (behind end) h k eq = absurd (omega (arith, not_success excess_placeholders n h eq))
last-Reads n l (error e) h k eq = absurd (omega (arith, not_success excess_placeholders n h eq))

verify_next-Reads :
    (n litpos : ℕ) (ty : LoggedType) (types : List LoggedType) (l : List ℕ) (go_on : ℕ → ℕ)
    (r : Next)
    → n < 2 ^ 16
    → type_id ty ≢ type_error
    → Placed (validate_format_modifiers ty) (drop litpos l) r
    → ((pos : ℕ) → get_code (go_on pos) ≡ code success → Reads types (drop pos l))
    → get_code (verify_next n litpos go_on r) ≡ code success
    → Reads (ty ∷ types) (drop litpos l)
unfolding verify_next
verify_next-Reads n litpos ty types l go_on (behind end) h id (p, spec, rest, k, v, none_in, e, d)
      ih eq =
    after_it (ih (litpos + end) eq)
  where
    after_it : Reads types (drop (litpos + end) l) → Reads (ty ∷ types) (drop litpos l)
    after_it (f, is, w, acc) = (
      attach p (λ t. place t spec f),
      attach-IsFormat p _ k
          (λ t a. (a, (no_braces spec (validate_format_modifiers-NoOpen ty spec v) none_in, is))),
      written-attach p _ _ (λ t. refl)
          ∙ ap (λ x. prefix_text p ++ (b'{' ∷ (spec ++ (b'}' ∷ x)))) (w ∙ drop_add litpos end l ∙ d)
          ∙ sym e,
      attach-Accepts p _ (ty ∷ types) (λ t. (id, v, acc)),
    )
verify_next-Reads n litpos ty types l go_on (error notfound) h id k ih eq =
    absurd (omega (arith, not_success excess_arguments n h eq))
verify_next-Reads n litpos ty types l go_on (error success) h id k ih eq = absurd k
verify_next-Reads n litpos ty types l go_on (error success_with_refs) h id k ih eq = absurd k
verify_next-Reads n litpos ty types l go_on (error e) h id k ih eq =
    absurd (omega (arith, not_success e n h eq))

iterate-Reads :
    (n : ℕ) (types : List LoggedType) (l : List ℕ) (litpos : ℕ)
    → n + length types < 2 ^ 16
    → get_code (iterate n types l litpos) ≡ code success
    → Reads (printed_types types) (drop litpos l)
unfolding iterate
iterate-Reads n [] l litpos h eq =
    last-Reads n (drop litpos l) _ (omega arith) (validate_next-Placed no_modifiers (drop litpos l))
      eq
iterate-Reads n (t ∷ types) l litpos h eq =
    at (λ pos. iterate-Reads (suc n) types l pos (omega arith)) (Bool-cases (is_refdtor t))
  where
    Rest : Type 0
    Rest =
        (pos : ℕ)
        → get_code (iterate (suc n) types l pos) ≡ code success
        → Reads (printed_types types) (drop pos l)

    printed :
        Rest
        → is_refdtor t ≡ false
        → (type_id t == type_error ≡ true) ⊎ (type_id t == type_error ≡ false)
        → Reads (t ∷ printed_types types) (drop litpos l)
    printed rest e (inl is) =
        absurd (omega (arith, not_success invalid_type n (omega arith) (rw (iterate, e, is) at eq)))
    printed rest e (inr is_not) =
        verify_next-Reads n litpos t (printed_types types) l _ _ (omega arith)
          (==→ne (type_id t) type_error is_not)
          (validate_next-Placed (validate_format_modifiers t) (drop litpos l)) rest
          (rw (iterate, e, is_not) at eq)

    at :
        Rest
        → (is_refdtor t ≡ true) ⊎ (is_refdtor t ≡ false)
        → Reads (printed_types (t ∷ types)) (drop litpos l)
    at rest (inl e) = rw (e) (rest litpos (rw (iterate, e) at eq))
    at rest (inr e) = rw (e) (printed rest e (Bool-cases (type_id t == type_error)))

-- A format that passes the validation for the types of a call's arguments, of which there are less
-- than 2^16 - 1, is texts and placeholders: one for each argument that is not the destructor of
-- references, of a type that can be logged, with modifiers that this type accepts.
pub validate-Reads :
    (types : List LoggedType) (l : List ℕ)
    → 1 + length types < 2 ^ 16
    → get_code (validate types l) ≡ code success
    → (f : Format) × IsFormat f × (written f ≡ l) × Accepts f (printed_types types)
unfolding validate
validate-Reads types l h eq = iterate-Reads 1 types l 0 h eq

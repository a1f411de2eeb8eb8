-- ===== src/Validation/Compiles.antt =====
-- `static_arg_validation` of include/malcpp/impl/compile_time_validation.hpp: the calls that compile.
use mini_async_log_c.Common.{
  ℕ, zero, suc, ◌+◌, ◌^◌, ◌≤◌, ◌<◌, ◌≡◌, ◌≢◌, refl, sym, ap, ◌∙◌, Bool, true, false, ◌&&◌, ◌||◌,
  inl, inr, ◌⊎◌, Bool-cases, Option, none, some, List, [], ◌∷◌, if◌then◌else◌, ltb, ◌==◌, ==_refl,
  ==→ne, ltb→lt, length, drop, arith,
}
use mini_async_log_c.Serial.Values.{type_error}
use mini_async_log_c.Validation.LoggedTypes.{
  LoggedType, type_id, validate_format_modifiers, is_refdtor,
}
use mini_async_log_c.Validation.Places.{Placed, validate_next-Placed}
use mini_async_log_c.Validation.Codes.{get_code-make, get_arg-make}
use mini_async_log_c.Validation.Report.{
  is_not, none_of, none_over, generate_compile_errors, is_negative, get_result,
  static_arg_validation,
}
use mini_async_log_c.Validation.{
  Fmterr, success_with_refs, success, notfound, invalid_modifiers, excess_placeholders,
  excess_arguments, unclosed_lbracket, missing_refdtor, misplaced_refdtor, repeated_refdtor,
  excess_refdtor, invalid_type, code, make, get_code, get_arg, Next, behind, error,
  process_last_error, verify_next, iterate, validate, do_validate, validate_references,
}

-- One of the errors that the compiler is to report, with the number of an argument where it has one.
abbrev IsError : Fmterr → ℕ → Type 0
IsError success_with_refs arg = ⊥
IsError success arg = ⊥
IsError notfound arg = ⊥
IsError invalid_modifiers arg = 0 < arg
IsError invalid_type arg = 0 < arg
IsError _ arg = Unit

none_of-named :
    (e : Fmterr) (arg num : ℕ) → 0 < arg → arg ≤ num → none_of e (code e) arg num ≡ false
unfolding none_of
none_of-named e arg zero pos small = absurd (omega arith)
none_of-named e arg (suc num) pos small = elim (Bool-cases (arg == suc num)) [
  | inl is ↦ rw (none_of, ==_refl (code e), is) (and-false (none_of e (code e) arg num))
  | inr is_not ↦
      rw (none_of, none_of-named e arg num pos (before (==→ne arg (suc num) is_not))) refl
]
  where
    and-false : (b : Bool) → (b && false) ≡ false
    and-false true = refl
    and-false false = refl

    before : arg ≢ suc num → arg ≤ num
    before ne = omega (arith, ne, small)

-- One of the assertions for an error with a number is of the argument with this number.
named :
    (e : Fmterr) (arg : ℕ)
    → 0 < arg
    → (none_of e (code e) arg 49 ≡ false) ⊎ (none_over e (code e) arg ≡ false)
named e arg pos = elim (Bool-cases (ltb arg 50)) [
  | inl few ↦ inl (none_of-named e arg 49 pos (below few))
  | inr many ↦ inr (rw (many, ==_refl (code e)) refl)
]
  where
    below : ltb arg 50 ≡ true → arg ≤ 49
    below few = omega (arith, ltb→lt arg 50 few)

first-false : (x y a b : Bool) → (x ≡ false) ⊎ (y ≡ false) → (x && y && a && b) ≡ false
first-false x y a b (inl e) = rw (e) refl
first-false true y a b (inr e) = rw (e) refl
first-false false y a b (inr e) = refl

last-false : (x y a b : Bool) → (a ≡ false) ⊎ (b ≡ false) → (x && y && a && b) ≡ false
last-false true true true b (inl e) = absurd (cc)
last-false true true false b (inl e) = refl
last-false true true true b (inr e) = e
last-false true true false b (inr e) = refl
last-false true false a b h = refl
last-false false y a b h = refl

reported : (e : Fmterr) (arg : ℕ) → IsError e arg → generate_compile_errors (code e) arg ≡ false
unfolding generate_compile_errors
reported invalid_modifiers arg h =
    first-false (none_of invalid_modifiers (code invalid_modifiers) arg 49)
      (none_over invalid_modifiers (code invalid_modifiers) arg)
      (none_of invalid_type (code invalid_modifiers) arg 49)
      (none_over invalid_type (code invalid_modifiers) arg) (named invalid_modifiers arg h)
reported invalid_type arg h =
    last-false (none_of invalid_modifiers (code invalid_type) arg 49)
      (none_over invalid_modifiers (code invalid_type) arg)
      (none_of invalid_type (code invalid_type) arg 49)
      (none_over invalid_type (code invalid_type) arg) (named invalid_type arg h)
reported success_with_refs arg h = absurd h
reported success arg h = absurd h
reported notfound arg h = absurd h
reported e arg h = refl

-- A result of the two validations: a success or an error, with the number of an argument.
abbrev IsOutcome : Fmterr → ℕ → Type 0
IsOutcome success arg = Unit
IsOutcome e arg = IsError e arg

abbrev Made : ℕ → Type 0
Made v = (e : Fmterr) × (arg : ℕ) × (v ≡ make e arg) × (arg < 2 ^ 16) × IsOutcome e arg

process_last_error-Made : (n : ℕ) (r : Next) → 0 < n → n < 2 ^ 16 → Made (process_last_error n r)
unfolding process_last_error
process_last_error-Made n (behind end) pos h = (excess_placeholders, n, refl, h, tt)
process_last_error-Made n (error notfound) pos h = (success, n, refl, h, tt)
process_last_error-Made n (error unclosed_lbracket) pos h = (unclosed_lbracket, n, refl, h, tt)
process_last_error-Made n (error _) pos h = (excess_placeholders, n, refl, h, tt)

verify_next-Made :
    (n litpos : ℕ) (valid : List ℕ → Bool) (l : List ℕ) (go_on : ℕ → ℕ) (r : Next)
    → 0 < n
    → n < 2 ^ 16
    → Placed valid l r
    → ((pos : ℕ) → Made (go_on pos))
    → Made (verify_next n litpos go_on r)
unfolding verify_next
verify_next-Made n litpos valid l go_on (behind end) pos h k rest = rest (litpos + end)
verify_next-Made n litpos valid l go_on (error notfound) pos h k rest =
    (excess_arguments, n, refl, h, tt)
verify_next-Made n litpos valid l go_on (error success) pos h k rest = absurd k
verify_next-Made n litpos valid l go_on (error success_with_refs) pos h k rest = absurd k
verify_next-Made n litpos valid l go_on (error invalid_modifiers) pos h k rest =
    (invalid_modifiers, n, refl, h, pos)
verify_next-Made n litpos valid l go_on (error invalid_type) pos h k rest =
    (invalid_type, n, refl, h, pos)
verify_next-Made n litpos valid l go_on (error e) pos h k rest = (e, n, refl, h, tt)

iterate-Made :
    (types : List LoggedType) (n : ℕ) (l : List ℕ) (litpos : ℕ)
    → 0 < n
    → n + length types < 2 ^ 16
    → Made (iterate n types l litpos)
unfolding iterate
iterate-Made [] n l litpos pos h = process_last_error-Made n _ pos (omega arith)
iterate-Made (t ∷ types) n l litpos pos h =
    at (λ p. iterate-Made types (suc n) l p (omega arith) (omega arith)) (Bool-cases (is_refdtor t))
      (Bool-cases (type_id t == type_error))
  where
    at :
        ((p : ℕ) → Made (iterate (suc n) types l p))
        → (is_refdtor t ≡ true) ⊎ (is_refdtor t ≡ false)
        → (type_id t == type_error ≡ true) ⊎ (type_id t == type_error ≡ false)
        → Made (iterate n (t ∷ types) l litpos)
    at rest (inl r) id = rw (iterate, r) (rest litpos)
    at rest (inr r) (inl id) = rw (iterate, r, id) (invalid_type, n, refl, omega arith, pos)
    at rest (inr r) (inr id) =
        rw (iterate, r, id)
          (verify_next-Made n litpos (validate_format_modifiers t) (drop litpos l) _ _ pos
            (omega arith) (validate_next-Placed (validate_format_modifiers t) (drop litpos l)) rest)

-- A result on the references: a success with them or without, or an error.
abbrev IsReferences : Fmterr → Type 0
IsReferences success = Unit
IsReferences success_with_refs = Unit
IsReferences e = IsError e 0

abbrev MadeReferences : ℕ → Type 0
MadeReferences v = (e : Fmterr) × (v ≡ make e 0) × IsReferences e

if-MadeReferences :
    (b : Bool) (x y : ℕ) → MadeReferences x → MadeReferences y → MadeReferences (if b then x else y)
if-MadeReferences true x y h k = h
if-MadeReferences false x y h k = k

do_validate-Made :
    (types : List LoggedType) (reftypes dtors : ℕ) (dtorlast : Bool)
    → MadeReferences (do_validate types reftypes dtors dtorlast)
unfolding do_validate
do_validate-Made [] reftypes dtors dtorlast =
    if-MadeReferences (ltb 0 dtors) _ _
      (if-MadeReferences (reftypes == 0) _ _ (excess_refdtor, refl, tt)
        (if-MadeReferences (dtors == 1) _ _
          (if-MadeReferences dtorlast _ _ (success_with_refs, refl, tt)
            (misplaced_refdtor, refl, tt))
          (repeated_refdtor, refl, tt)))
      (if-MadeReferences (reftypes == 0) _ _ (success, refl, tt) (missing_refdtor, refl, tt))
do_validate-Made (t ∷ types) reftypes dtors dtorlast = do_validate-Made types _ _ (is_refdtor t)

-- The calls that compile, and what the compiler then knows of the references.
abbrev pub accepted : ℕ → ℕ → Option ℕ
accepted refserr fmtstrerr =
    if get_code fmtstrerr == code success
      && (get_code refserr == code success || (get_code refserr == code success_with_refs))
    then some (get_code refserr)
    else none

get_result-reported : (e : Fmterr) (arg : ℕ) → IsError e arg → get_result (code e) arg ≡ none
unfolding get_result
get_result-reported e arg h = rw (reported e arg h) refl

-- The choice between the two results, from their parts.
abbrev chosen : ℕ → ℕ → ℕ → ℕ → Option ℕ
chosen fc fa rc ra =
    get_result (if is_negative fc then fc else rc) (if is_negative fc then fa else ra)

abbrev expected : ℕ → ℕ → Option ℕ
expected fc rc =
    if fc == code success && (rc == code success || (rc == code success_with_refs))
    then some rc
    else none

references-chosen :
    (fa : ℕ) (e : Fmterr)
    → IsReferences e
    → chosen (code success) fa (code e) 0 ≡ expected (code success) (code e)
unfolding get_result generate_compile_errors
references-chosen fa success h = refl
references-chosen fa success_with_refs h = refl
references-chosen fa notfound h = absurd h
references-chosen fa e h = get_result-reported e 0 h

format-chosen :
    (e : Fmterr) (arg : ℕ) (e' : Fmterr)
    → IsOutcome e arg
    → IsReferences e'
    → chosen (code e) arg (code e') 0 ≡ expected (code e) (code e')
format-chosen success arg e' h k = references-chosen arg e' k
format-chosen success_with_refs arg e' h k = absurd h
format-chosen notfound arg e' h k = absurd h
format-chosen e arg e' h k = get_result-reported e arg h

-- A call compiles when its format passes the validation for the types of its arguments, of which
-- there are less than 2^16 - 1, and the references among these have their destructor or there is
-- neither; every other result breaks an assertion of the compiler. What the call then knows of the
-- references is the result of their validation.
pub static_arg_validation-accepted :
    (types : List LoggedType) (l : List ℕ)
    → 1 + length types < 2 ^ 16
    → static_arg_validation (validate_references types) (validate types l)
      ≡ accepted (validate_references types) (validate types l)
unfolding validate validate_references static_arg_validation
static_arg_validation-accepted types l few =
    at (iterate-Made types 1 l 0 (omega arith) few) (do_validate-Made types 0 0 false)
  where
    at :
        Made (validate types l)
        → MadeReferences (validate_references types)
        → static_arg_validation (validate_references types) (validate types l)
          ≡ accepted (validate_references types) (validate types l)
    at (e, arg, v, small, h) (e', r, h') =
        let fmt = validate types l in
        let refs = validate_references types in
        let f : get_code (validate types l) ≡ code e = ap get_code v ∙ get_code-make e arg small in
        let a : get_arg (validate types l) ≡ arg = ap get_arg v ∙ get_arg-make e arg small in
        let f' : get_code (validate_references types) ≡ code e' =
          ap get_code r ∙ get_code-make e' 0 (omega arith) in
        let a' : get_arg (validate_references types) ≡ 0 =
          ap get_arg r ∙ get_arg-make e' 0 (omega arith) in
        ap (λ x. chosen x (get_arg fmt) (get_code refs) (get_arg refs)) f
        ∙ ap (λ x. chosen (code e) x (get_code refs) (get_arg refs)) a
        ∙ ap (λ x. chosen (code e) arg x (get_arg refs)) f'
        ∙ ap (λ x. chosen (code e) arg (code e') x) a'
        ∙ format-chosen e arg e' h h'
        ∙ ap (λ x. expected (code e) x) (sym f')
        ∙ ap (λ x. expected x (get_code refs)) (sym f)

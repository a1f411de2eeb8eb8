-- ===== src/Validation/Exact.antt =====
-- include/malcpp/impl/compile_time_validation.hpp: the result for a format that is built from its parts.
use mini_async_log_c.Common.{
  ℕ, suc, ◌+◌, ◌≡◌, refl, sym, ap, ◌∙◌, Bool, true, false, inl, inr, ◌⊎◌, Bool-cases, Option, none,
  some, List, [], ◌∷◌, ◌++◌, append_assoc, append-nil, drop_add, if◌then◌else◌, ◌==◌, ==_ne, length,
  length-append, drop, All, arith,
}
use mini_async_log_c.Serial.Values.{type_error}
use mini_async_log_c.EntryParser.Text.Render.{
  Format, plain, brace, place, written, IsFormat, NoOpen, NoBrace,
}
use mini_async_log_c.Validation.Literal.{find, substr}
use mini_async_log_c.Validation.LoggedTypes.{
  LoggedType, type_id, no_modifiers, validate_format_modifiers, is_refdtor, uint8, int8, uint16,
  int16, uint32, int32, uint64, int64, float, double, builtin, malc_strcp, malc_memcp, void_ptr,
  malc_lit, malc_strref, malc_memref, malc_refdtor, std_string_rvalue, raw_object,
  raw_object_w_context, raw_object_w_flag, smartptr_string, smartptr_vector,
}
use mini_async_log_c.Validation.Places.{around, drop-opened, substr-placeholder, drop-placeholder}
use mini_async_log_c.Validation.{
  success, notfound, invalid_modifiers, excess_placeholders, excess_arguments, make, error,
  find_lbracket, find_rbracket, validate_next_step3_validation, validate_next_step2_rbracket,
  validate_next_step1_lbracket, validate_next, process_last_error, verify_next, iterate, validate,
}

-- The modifiers of the first placeholder, and the format behind it.
abbrev pub next_place : Format → Option (List ℕ × Format)
next_place (plain t) = none
next_place (brace t f) = next_place f
next_place (place t spec f) = some (spec, f)

-- The result for the arguments from the one of number `n`: they take the placeholders one by one.
abbrev pub verdict : ℕ → List LoggedType → Format → ℕ
verdict n [] f = elim (next_place f) [ none ↦ make success n | some _ ↦ make excess_placeholders n ]
verdict n (t ∷ types) f = if is_refdtor t then verdict (suc n) types f else elim (next_place f) [
  | none ↦ make excess_arguments n
  | some (spec, f') ↦
      if validate_format_modifiers t spec
      then verdict (suc n) types f'
      else make invalid_modifiers n
]

-- What a search for an open brace from `pos` finds in a format.
abbrev Leads : Format → ℕ → Option (List ℕ × Format) → Type 0
Leads f pos none = find_lbracket (written f) pos false ≡ none
Leads f pos (some (spec, f')) =
    (a : List ℕ) × (written f ≡ around a spec (written f'))
    × (find_lbracket (written f) pos false ≡ some (pos + suc (length a)))
    × All NoBrace spec
    × IsFormat f'

find_lbracket-skips :
    (t rest : List ℕ) (pos : ℕ)
    → All NoOpen t
    → find_lbracket (t ++ rest) pos false ≡ find_lbracket rest (pos + length t) false
unfolding find_lbracket
find_lbracket-skips [] rest pos h = ap (λ p. find_lbracket rest p false) (omega arith)
find_lbracket-skips (c ∷ t) rest pos h =
    rw (find_lbracket, ==_ne (h.0))
      (find_lbracket-skips t rest (suc pos) h.1
        ∙ ap (λ p. find_lbracket rest p false) (omega arith))

find_lbracket-opens :
    (spec rest : List ℕ) (pos : ℕ)
    → All NoBrace spec
    → find_lbracket (b'{' ∷ (spec ++ (b'}' ∷ rest))) pos false ≡ some (suc pos)
unfolding find_lbracket
find_lbracket-opens [] rest pos h = refl
find_lbracket-opens (c ∷ spec) rest pos h = rw (find_lbracket, ==_ne (h.0.0)) refl

find-closes :
    (spec rest : List ℕ) (pos : ℕ)
    → All NoBrace spec
    → find b'}' (spec ++ (b'}' ∷ rest)) pos ≡ some (pos + length spec)
unfolding find
find-closes [] rest pos h = ap some (omega arith)
find-closes (c ∷ spec) rest pos h =
    rw (find, ==_ne (h.0.1)) (find-closes spec rest (suc pos) h.1 ∙ ap some (omega arith))

place-Leads : (f : Format) (pos : ℕ) → IsFormat f → Leads f pos (next_place f)
unfolding find_lbracket
place-Leads (plain t) pos h = rw (append-nil t) at (find_lbracket-skips t [] pos h)
place-Leads (place t spec f) pos h = (
  t,
  refl,
  find_lbracket-skips t _ pos h.0
      ∙ find_lbracket-opens spec (written f) (pos + length t) h.1.0
      ∙ ap some (omega arith),
  h.1.0,
  h.1.1,
)
place-Leads (brace t f) pos h = at (next_place f) (place-Leads f (suc (suc (pos + length t))) h.1)
  where
    skipped :
        find_lbracket (written (brace t f)) pos false
        ≡ find_lbracket (written f) (suc (suc (pos + length t))) false
    skipped = find_lbracket-skips t _ pos h.0

    at :
        (r : Option (List ℕ × Format))
        → Leads f (suc (suc (pos + length t))) r
        → Leads (brace t f) pos r
    at none k = skipped ∙ k
    at (some (spec, f')) (a, w, e, clean, is) = (
      t ++ (b'{' ∷ b'{' ∷ a),
      ap (λ x. t ++ (b'{' ∷ b'{' ∷ x)) w
          ∙ sym (append_assoc t (b'{' ∷ b'{' ∷ a) (b'{' ∷ (spec ++ (b'}' ∷ written f')))),
      skipped ∙ e ∙ ap some (omega (arith, length-append t (b'{' ∷ b'{' ∷ a))),
      clean,
      is,
    )

-- A placeholder's modifiers are the valid ones or not, and the text behind it is the rest.
abbrev Answers : (List ℕ → Bool) → Format → Option (List ℕ × Format) → Type 0
Answers valid f none = validate_next valid (written f) ≡ error notfound
Answers valid f (some (spec, f')) =
    (end : ℕ) × (validate_next valid (written f) ≡ validate_next_step3_validation end (valid spec))
    × (drop (end + 1) (written f) ≡ written f')
    × IsFormat f'

validate_next-Answers :
    (valid : List ℕ → Bool) (f : Format) → IsFormat f → Answers valid f (next_place f)
unfolding validate_next
validate_next-Answers valid f h = at (next_place f) (place-Leads f 0 h)
  where
    at : (r : Option (List ℕ × Format)) → Leads f 0 r → Answers valid f r
    at none e = ap (validate_next_step1_lbracket valid (written f)) e
    at (some (spec, f')) (a, w, e, clean, is) = (
      beg + length spec,
      ap (validate_next_step1_lbracket valid (written f)) e
          ∙ ap (validate_next_step2_rbracket valid (written f) beg) closed
          ∙ ap (λ x. validate_next_step3_validation (beg + length spec) (valid x)) part,
      ap (drop (beg + length spec + 1)) w
          ∙ drop-placeholder a spec (written f') beg (beg + length spec) (omega arith) refl,
      is,
    )
      where
        beg : ℕ
        beg = 0 + suc (length a)

        closed : find_rbracket (written f) beg ≡ some (beg + length spec)
        closed =
            ap (λ x. find b'}' x beg)
              (ap (drop beg) w
                ∙ drop-opened a spec (written f') beg (beg + length spec) (omega arith) refl
                    (spec ++ (b'}' ∷ written f')))
            ∙ find-closes spec (written f') beg clean

        part : substr (written f) beg (beg + length spec) ≡ spec
        part =
            ap (λ x. substr x beg (beg + length spec)) w
            ∙ substr-placeholder a spec (written f') beg (beg + length spec) (omega arith) refl

type_id-valid : (t : LoggedType) → (type_id t == type_error) ≡ false
type_id-valid (builtin uint8) = refl
type_id-valid (builtin int8) = refl
type_id-valid (builtin uint16) = refl
type_id-valid (builtin int16) = refl
type_id-valid (builtin uint32) = refl
type_id-valid (builtin int32) = refl
type_id-valid (builtin uint64) = refl
type_id-valid (builtin int64) = refl
type_id-valid (builtin float) = refl
type_id-valid (builtin double) = refl
type_id-valid malc_strcp = refl
type_id-valid malc_memcp = refl
type_id-valid void_ptr = refl
type_id-valid malc_lit = refl
type_id-valid malc_strref = refl
type_id-valid malc_memref = refl
type_id-valid malc_refdtor = refl
type_id-valid std_string_rvalue = refl
type_id-valid raw_object = refl
type_id-valid raw_object_w_context = refl
type_id-valid raw_object_w_flag = refl
type_id-valid smartptr_string = refl
type_id-valid (smartptr_vector b) = refl

last-verdict :
    (n : ℕ) (f : Format)
    → IsFormat f
    → process_last_error n (validate_next no_modifiers (written f)) ≡ verdict n [] f
unfolding process_last_error
last-verdict n f h = at (next_place f) (validate_next-Answers no_modifiers f h)
  where
    either :
        (end : ℕ) (b : Bool)
        → process_last_error n (validate_next_step3_validation end b) ≡ make excess_placeholders n
    either end true = refl
    either end false = refl

    at :
        (r : Option (List ℕ × Format))
        → Answers no_modifiers f r
        → process_last_error n (validate_next no_modifiers (written f))
          ≡ elim r [ none ↦ make success n | some _ ↦ make excess_placeholders n ]
    at none e = ap (process_last_error n) e
    at (some (spec, f')) (end, e, d, is) =
        ap (process_last_error n) e ∙ either end (no_modifiers spec)

iterate-verdict :
    (types : List LoggedType) (n : ℕ) (f : Format) (l : List ℕ) (litpos : ℕ)
    → IsFormat f
    → drop litpos l ≡ written f
    → iterate n types l litpos ≡ verdict n types f
unfolding iterate verify_next
iterate-verdict [] n f l litpos h e = rw (e) (last-verdict n f h)
iterate-verdict (t ∷ types) n f l litpos h e =
    at (iterate-verdict types (suc n)) (Bool-cases (is_refdtor t))
  where
    Rest : Type 0
    Rest =
        (f : Format) (l : List ℕ) (litpos : ℕ)
        → IsFormat f
        → drop litpos l ≡ written f
        → iterate (suc n) types l litpos ≡ verdict (suc n) types f

    printed :
        Rest
        → (r : Option (List ℕ × Format)) → Answers (validate_format_modifiers t) f r
        → verify_next n litpos
            (iterate (suc n) types l)
            (validate_next (validate_format_modifiers t) (drop litpos l))
          ≡ elim r [
            | none ↦ make excess_arguments n
            | some (spec, f') ↦
                if validate_format_modifiers t spec
                then verdict (suc n) types f'
                else make invalid_modifiers n
          ]
    printed rest none a = rw (e, a) refl
    printed rest (some (spec, f')) (end, a, d, is) =
        rw (e, a) (either (validate_format_modifiers t spec))
      where
        either :
            (b : Bool)
            → verify_next n litpos (iterate (suc n) types l) (validate_next_step3_validation end b)
              ≡ (if b then verdict (suc n) types f' else make invalid_modifiers n)
        either true =
            rest f' l (litpos + (end + 1)) is
              (drop_add litpos (end + 1) l ∙ ap (drop (end + 1)) e ∙ d)
        either false = refl

    at :
        Rest
        → (is_refdtor t ≡ true) ⊎ (is_refdtor t ≡ false)
        → iterate n (t ∷ types) l litpos ≡ verdict n (t ∷ types) f
    at rest (inl r) = rw (iterate, r) (rest f l litpos h e)
    at rest (inr r) =
        rw (iterate, r, type_id-valid t)
          (printed rest (next_place f) (validate_next-Answers (validate_format_modifiers t) f h))

-- The validation of a format that is built from texts and placeholders takes the arguments one by one, the
-- destructor of references without a placeholder: it gives the number of the first that has no
-- placeholder or has modifiers that its type does not accept, and then tells whether there is a
-- placeholder left.
pub validate-verdict :
    (types : List LoggedType) (f : Format)
    → IsFormat f
    → validate types (written f) ≡ verdict 1 types f
unfolding validate
validate-verdict types f h = iterate-verdict types 1 f (written f) 0 h refl

-- ===== src/Validation/Places.antt =====
-- The placeholders that include/malcpp/impl/compile_time_validation.hpp finds in a format.
use mini_async_log_c.Common.{
  ℕ, suc, ◌+◌, ◌-◌, ◌≡◌, ◌≢◌, refl, sym, ap, ◌∙◌, Bool, true, false, inl, inr, Option, none, some,
  List, [], ◌∷◌, ◌++◌, append_assoc, if◌then◌else◌, Bool-cases, ==→eq, ==→ne, length, length-append,
  drop, take-append, drop-append, All, ◌==◌, arith,
}
use mini_async_log_c.EntryParser.Text.Render.{NoOpen}
use mini_async_log_c.Validation.Literal.{find, substr}
use mini_async_log_c.Validation.{
  success_with_refs, success, notfound, Next, behind, error, find_lbracket, find_rbracket,
  validate_next_step3_validation, validate_next_step2_rbracket, validate_next_step1_lbracket,
  validate_next,
}

-- Text with escaped braces.
pub data Prefix : Type 0 where
  last : List ℕ → Prefix
  escaped : List ℕ → Prefix → Prefix

abbrev pub prefix_text : Prefix → List ℕ
prefix_text (last t) = t
prefix_text (escaped t p) = t ++ (b'{' ∷ b'{' ∷ prefix_text p)

abbrev pub IsPrefix : Prefix → Type 0
IsPrefix (last t) = All NoOpen t
IsPrefix (escaped t p) = All NoOpen t × IsPrefix p

push : ℕ → Prefix → Prefix
push c (last t) = last (c ∷ t)
push c (escaped t p) = escaped (c ∷ t) p

push-text : (c : ℕ) (p : Prefix) → prefix_text (push c p) ≡ c ∷ prefix_text p
unfolding push
push-text c (last t) = refl
push-text c (escaped t p) = refl

push-IsPrefix : (c : ℕ) (p : Prefix) → NoOpen c → IsPrefix p → IsPrefix (push c p)
unfolding push
push-IsPrefix c (last t) h k = (h, k)
push-IsPrefix c (escaped t p) h k = ((h, k.0), k.1)

-- What a search for an open brace from the position `pos` says of the characters there.
abbrev Opens : List ℕ → ℕ → Option ℕ → Type 0
Opens l pos none = (p : Prefix) × IsPrefix p × (l ≡ prefix_text p)
Opens l pos (some beg) =
    (p : Prefix) × (rest : List ℕ) × IsPrefix p
    × (l ≡ prefix_text p ++ (b'{' ∷ rest))
    × (beg ≡ pos + suc (length (prefix_text p)))

Opens-push :
    (c : ℕ) (l : List ℕ) (pos : ℕ) (r : Option ℕ)
    → NoOpen c
    → Opens l (suc pos) r
    → Opens (c ∷ l) pos r
Opens-push c l pos none h (p, k, e) =
    (push c p, push-IsPrefix c p h k, ap (◌∷◌ c) e ∙ sym (push-text c p))
Opens-push c l pos (some beg) h (p, rest, k, e, at) = (
  push c p,
  rest,
  push-IsPrefix c p h k,
  ap (◌∷◌ c) e ∙ rw (push-text c p) refl,
  rw (push-text c p) (omega (arith, at)),
)

Opens-escaped :
    (l : List ℕ) (pos : ℕ) (r : Option ℕ)
    → Opens l (suc (suc pos)) r
    → Opens (b'{' ∷ b'{' ∷ l) pos r
Opens-escaped l pos none (p, k, e) = (escaped [] p, (tt, k), ap (λ x. b'{' ∷ b'{' ∷ x) e)
Opens-escaped l pos (some beg) (p, rest, k, e, at) =
    (escaped [] p, rest, (tt, k), ap (λ x. b'{' ∷ b'{' ∷ x) e, omega (arith, at))

find_lbracket-Opens : (l : List ℕ) (pos : ℕ) → Opens l pos (find_lbracket l pos false)
unfolding find_lbracket
find_lbracket-Opens [] pos = (last [], tt, refl)
find_lbracket-Opens (c ∷ []) pos = elim (Bool-cases (c == b'{')) [
  | inl e ↦ rw (e, ==→eq c b'{' e) (last [], [], tt, refl, omega arith)
  | inr e ↦ rw (e) (last (c ∷ []), (==→ne c b'{' e, tt), refl)
]
find_lbracket-Opens (c ∷ d ∷ rest) pos =
    first (find_lbracket-Opens rest (suc (suc pos))) (find_lbracket-Opens (d ∷ rest) (suc pos))
  where
    second :
        Opens rest (suc (suc pos)) (find_lbracket rest (suc (suc pos)) false)
        → Opens (b'{' ∷ d ∷ rest) pos (find_lbracket (d ∷ rest) (suc pos) true)
    second h = elim (Bool-cases (d == b'{')) [
      | inl e ↦ rw (e, ==→eq d b'{' e) (Opens-escaped rest pos _ h)
      | inr e ↦ rw (e) (last [], d ∷ rest, tt, refl, omega arith)
    ]

    first :
        Opens rest (suc (suc pos)) (find_lbracket rest (suc (suc pos)) false)
        → Opens (d ∷ rest) (suc pos) (find_lbracket (d ∷ rest) (suc pos) false)
        → Opens (c ∷ d ∷ rest) pos (find_lbracket (c ∷ d ∷ rest) pos false)
    first h k = elim (Bool-cases (c == b'{')) [
      | inl e ↦ rw (find_lbracket, e, ==→eq c b'{' e) (second h)
      | inr e ↦ rw (find_lbracket, e) (Opens-push c (d ∷ rest) pos _ (==→ne c b'{' e) k)
    ]

-- What a search for a character from the position `pos` says of the characters there.
abbrev Finds : ℕ → List ℕ → ℕ → Option ℕ → Type 0
Finds c l pos none = Unit
Finds c l pos (some i) =
    (before : List ℕ) × (rest : List ℕ) × All (λ x. x ≢ c) before
    × (l ≡ before ++ (c ∷ rest))
    × (i ≡ pos + length before)

find-Finds : (c : ℕ) (l : List ℕ) (pos : ℕ) → Finds c l pos (find c l pos)
unfolding find
find-Finds c [] pos = tt
find-Finds c (x ∷ xs) pos = at (find c xs (suc pos)) (find-Finds c xs (suc pos))
  where
    later : (r : Option ℕ) → x ≢ c → Finds c xs (suc pos) r → Finds c (x ∷ xs) pos r
    later none ne h = tt
    later (some i) ne (before, rest, all, e, place) =
        (x ∷ before, rest, (ne, all), ap (◌∷◌ x) e, omega (arith, place))

    at :
        (r : Option ℕ)
        → Finds c xs (suc pos) r
        → Finds c (x ∷ xs) pos (if x == c then some pos else r)
    at r h = elim (Bool-cases (x == c)) [
      | inl e ↦ rw (e) ([], xs, tt, ap (λ y. y ∷ xs) (==→eq x c e), omega arith)
      | inr e ↦ rw (e) (later r (==→ne x c e) h)
    ]

-- A placeholder with valid modifiers that ends at a position, or text without one.
abbrev pub Placed : (List ℕ → Bool) → List ℕ → Next → Type 0
Placed valid l (behind end) =
    (p : Prefix) × (spec : List ℕ) × (rest : List ℕ) × IsPrefix p
    × (valid spec ≡ true)
    × All (λ x. x ≢ b'}') spec
    × (l ≡ prefix_text p ++ (b'{' ∷ (spec ++ (b'}' ∷ rest))))
    × (drop end l ≡ rest)
Placed valid l (error notfound) = (p : Prefix) × IsPrefix p × (l ≡ prefix_text p)
Placed valid l (error success) = ⊥
Placed valid l (error success_with_refs) = ⊥
Placed valid l (error _) = Unit

-- A placeholder between two texts.
abbrev pub around : List ℕ → List ℕ → List ℕ → List ℕ
around a spec rest = a ++ (b'{' ∷ (spec ++ (b'}' ∷ rest)))

-- The texts from the two positions of a placeholder, and behind it.
module _ (a spec rest : List ℕ) (beg end : ℕ) (opens : beg ≡ suc (length a))
    (closes : end ≡ beg + length spec) where
  pub drop-opened : (xs : List ℕ) → drop beg (a ++ (b'{' ∷ xs)) ≡ xs
  drop-opened xs =
      rw (sym (append_assoc a (b'{' ∷ []) xs))
        (drop-append (a ++ (b'{' ∷ [])) xs beg (omega (arith, opens, length-append a (b'{' ∷ []))))

  pub substr-placeholder : substr (around a spec rest) beg end ≡ spec
  unfolding substr
  substr-placeholder =
      rw (drop-opened (spec ++ (b'}' ∷ rest)))
        (take-append spec (b'}' ∷ rest) (end - beg) (omega (arith, closes)))

  pub drop-placeholder : drop (end + 1) (around a spec rest) ≡ rest
  drop-placeholder =
      ap (drop (end + 1)) (joined)
      ∙ drop-append (a ++ (b'{' ∷ (spec ++ (b'}' ∷ [])))) rest (end + 1) (
          omega (
            arith,
            opens,
            closes,
            length-append a (b'{' ∷ (spec ++ (b'}' ∷ []))),
            length-append spec (b'}' ∷ []),
          ))
    where
      joined : around a spec rest ≡ (a ++ (b'{' ∷ (spec ++ (b'}' ∷ [])))) ++ rest
      joined = simp append_assoc

pub validate_next-Placed :
    (valid : List ℕ → Bool) (l : List ℕ) → Placed valid l (validate_next valid l)
unfolding validate_next
validate_next-Placed valid l = at (find_lbracket l 0 false) (find_lbracket-Opens l 0)
  where
    checked :
        (p : Prefix) (spec rest : List ℕ) (end : ℕ) (b : Bool)
        → IsPrefix p
        → All (λ x. x ≢ b'}') spec
        → l ≡ around (prefix_text p) spec rest
        → drop (end + 1) l ≡ rest
        → valid spec ≡ b
        → Placed valid l (validate_next_step3_validation end b)
    checked p spec rest end false k none_in e d v = tt
    checked p spec rest end true k none_in e d v = (p, spec, rest, k, v, none_in, e, d)

    at : (r : Option ℕ) → Opens l 0 r → Placed valid l (validate_next_step1_lbracket valid l r)
    at none h = h
    at (some beg) (p, rest, k, e, opens) = closing (find_rbracket l beg) (
        rw
          (
            e,
            drop-opened (prefix_text p) [] [] beg (beg + 0) (omega (arith, opens)) (omega arith)
                rest,
          )
          (find-Finds b'}' rest beg))
      where
        closing :
            (r : Option ℕ)
            → Finds b'}' rest beg r
            → Placed valid l (validate_next_step2_rbracket valid l beg r)
        closing none h = tt
        closing (some end) (spec, left, none_in, f, closes) =
            let whole : l ≡ around (prefix_text p) spec left =
              e ∙ ap (λ x. prefix_text p ++ (b'{' ∷ x)) f in
            let part : substr l beg end ≡ spec =
              ap (λ x. substr x beg end) whole
              ∙ substr-placeholder (prefix_text p) spec left beg end (omega (arith, opens))
                  closes in
            rw (part) (
              checked p spec left end (valid spec) k none_in whole
                (ap (drop (end + 1)) whole
                  ∙ drop-placeholder (prefix_text p) spec left beg end (omega (arith, opens))
                      closes)
                refl)

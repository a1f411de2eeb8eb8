-- ===== src/ArrayDst/Text.antt =====
-- src/malc/destinations/array.c: the characters that a write leaves in its slot.
use mathlib.Core.Path.{subst}
use mini_async_log_c.Common.{
  ℕ, zero, suc, ◌+◌, ◌-◌, ◌<◌, min, ◌≡◌, ◌≢◌, refl, sym, ◌∙◌, ap, List, [], ◌∷◌, ◌++◌, ==_ne, ◌⊎◌,
  length-append, append_assoc, ==_refl, length, take, All, arith,
}
use mini_async_log_c.Destinations.Types.{LogStrings}
use mini_async_log_c.ArrayDst.{store, copy, write_entry, read_string}

copy-append :
    (m : ℕ → ℕ) (a : ℕ) (xs ys : List ℕ)
    → copy (copy m a xs) (a + length xs) ys ≡ copy m a (xs ++ ys)
unfolding copy
copy-append m a [] ys = rw (zero_right a) refl
  where
    zero_right : (n : ℕ) → n + 0 ≡ n
    zero_right n = omega arith
copy-append m a (x ∷ xs) ys = rw (shifted a (length xs)) (copy-append (store m a x) (suc a) xs ys)
  where
    shifted : (n k : ℕ) → n + suc k ≡ suc n + k
    shifted n k = omega arith

take-min : (n : ℕ) (xs : List ℕ) → take (min n (length xs)) xs ≡ take n xs
take-min zero xs = rw (zero_left (length xs)) refl
  where
    zero_left : (k : ℕ) → min 0 k ≡ 0
    zero_left k = omega arith
take-min (suc n) [] = rw (zero_right (suc n)) refl
  where
    zero_right : (k : ℕ) → min k 0 ≡ 0
    zero_right k = omega arith
take-min (suc n) (x ∷ xs) = rw (both n (length xs)) (ap (λ l. x ∷ l) (take-min n xs))
  where
    both : (k l : ℕ) → min (suc k) (suc l) ≡ suc (min k l)
    both k l = omega arith

pub length-take : (n : ℕ) (xs : List ℕ) → length (take n xs) ≡ min n (length xs)
length-take zero xs = omega arith
length-take (suc n) [] = omega arith
length-take (suc n) (x ∷ xs) = omega (arith, length-take n xs)

-- What is left of `n` characters after those of `xs` goes to `ys`.
take-append :
    (n : ℕ) (xs ys : List ℕ) → take n xs ++ take (n - min n (length xs)) ys ≡ take n (xs ++ ys)
take-append zero xs ys = rw (none_left (length xs)) refl
  where
    none_left : (k : ℕ) → 0 - min 0 k ≡ 0
    none_left k = omega arith
take-append (suc n) [] ys = rw (all_left (suc n)) refl
  where
    all_left : (k : ℕ) → k - min k 0 ≡ k
    all_left k = omega arith
take-append (suc n) (x ∷ xs) ys = rw (same n (length xs)) (ap (λ l. x ∷ l) (take-append n xs ys))
  where
    same : (k l : ℕ) → suc k - min (suc k) (suc l) ≡ k - min k l
    same k l = omega arith

pub copy_outside : (m : ℕ → ℕ) (a b : ℕ) (xs : List ℕ) → b < a → copy m a xs b ≡ m b
unfolding copy store
copy_outside m a b [] h = refl
copy_outside m a b (x ∷ xs) h =
    let apart : b ≢ a = λ e. omega arith in
    copy_outside (store m a x) (suc a) b xs (omega arith) ∙ rw (==_ne apart) refl

-- The text that is stored: as much of the three as fits.
abbrev pub entry_text : ℕ → LogStrings → List ℕ
entry_text n strs = take n (strs.timestamp ++ (strs.sev ++ strs.text))

copy_three :
    (m : ℕ → ℕ) (a : ℕ) (xs ys zs : List ℕ) (i j k : ℕ)
    → length xs ≡ i
    → length ys ≡ j
    → length zs ≡ k
    → store (copy (copy (copy m a xs) (a + i) ys) (a + (i + j)) zs) (a + (i + j + k)) 0
      ≡ store (copy m a (xs ++ (ys ++ zs))) (a + length (xs ++ (ys ++ zs))) 0
copy_three m a xs ys zs i j k ei ej ek =
    let lengths : length (xs ++ (ys ++ zs)) ≡ i + j + k =
      omega (arith, length-append xs (ys ++ zs), length-append ys zs) in
    let both : i + j ≡ length (xs ++ ys) = omega (arith, length-append xs ys) in
    let copies : copy (copy (copy m a xs) (a + i) ys) (a + (i + j)) zs
        ≡ copy m a (xs ++ (ys ++ zs)) =
      rw (← ei) (
        rw (copy-append m a xs ys)
          (rw (ei, both, copy-append m a (xs ++ ys) zs, append_assoc xs ys zs) refl)) in
    rw (copies, lengths) refl

pieces :
    (n : ℕ) (xs ys zs : List ℕ)
    → take n xs
        ++ (take (n - min n (length xs)) ys
            ++ take (n - (min n (length xs) + min (n - min n (length xs)) (length ys))) zs)
      ≡ take n (xs ++ (ys ++ zs))
pieces n xs ys zs =
    let left = n - min n (length xs) in
    rw (nested n (min n (length xs)) (min left (length ys)), take-append left ys zs)
      (take-append n xs (ys ++ zs))
  where
    nested : (k i j : ℕ) → k - (i + j) ≡ k - i - j
    nested k i j = omega arith

pub write_entry-copy :
    (m : ℕ → ℕ) (a n : ℕ) (strs : LogStrings)
    → write_entry m a n strs
      ≡ store (copy m a (entry_text n strs)) (a + length (entry_text n strs)) 0
unfolding write_entry
write_entry-copy m a n strs =
    let cp1 = min n (length strs.timestamp) in
    let cp2 = min (n - cp1) (length strs.sev) in
    rw
      (take-min n strs.timestamp, take-min (n - cp1) strs.sev, take-min (n - (cp1 + cp2)) strs.text)
      (copy_three m a (take n strs.timestamp) (take (n - cp1) strs.sev)
        (take (n - (cp1 + cp2)) strs.text) _ _ _ (length-take n strs.timestamp)
        (length-take (n - cp1) strs.sev) (length-take (n - (cp1 + cp2)) strs.text))
    ∙ ap (λ t. store (copy m a t) (a + length t) 0) (pieces n strs.timestamp strs.sev strs.text)

-- A zero ends the characters `xs` at `a`.
abbrev pub Holds : (ℕ → ℕ) → ℕ → List ℕ → Type 0
Holds m a [] = m a ≡ 0
Holds m a (x ∷ xs) = (m a ≡ x) × Holds m (suc a) xs

pub read_string-Holds :
    (m : ℕ → ℕ) (left a : ℕ) (xs : List ℕ)
    → Holds m a xs
    → All (λ x. x ≢ 0) xs
    → length xs < left
    → read_string m left a ≡ xs
unfolding read_string
read_string-Holds m zero a xs h all lt = absurd (omega arith)
read_string-Holds m (suc left) a [] h all lt = rw h refl
read_string-Holds m (suc left) a (x ∷ xs) (h, hs) (nz, all) lt =
    rw (h, ==_ne nz) (ap (λ l. x ∷ l) (read_string-Holds m left (suc a) xs hs all (omega arith)))

pub Holds-copy :
    (m : ℕ → ℕ) (a : ℕ) (xs : List ℕ) → Holds (store (copy m a xs) (a + length xs) 0) a xs
unfolding copy store
Holds-copy m a [] = rw (end a, ==_refl a) refl
  where
    end : (n : ℕ) → n + 0 ≡ n
    end n = omega arith
Holds-copy m a (x ∷ xs) =
    let before : a ≢ a + suc (length xs) = λ e. omega arith in
    (
      rw (==_ne before)
          (copy_outside (store m a x) (suc a) a xs (omega arith) ∙ rw (store, ==_refl a) refl),
      subst (λ e. Holds (store (copy (store m a x) (suc a) xs) e 0) (suc a) xs)
          (sym (next_end a (length xs))) (Holds-copy (store m a x) (suc a) xs),
    )
  where
    next_end : (n k : ℕ) → n + suc k ≡ suc n + k
    next_end n k = omega arith

pub Holds-store :
    (m : ℕ → ℕ) (a b : ℕ) (xs : List ℕ)
    → (b < a) ⊎ (a + length xs < b)
    → Holds m a xs
    → Holds (store m b 0) a xs
unfolding store
Holds-store m a b [] h holds = let apart : a ≢ b = λ e. ground arith in rw (==_ne apart) holds
Holds-store m a b (x ∷ xs) h (here, holds) =
    let apart : a ≢ b = λ e. ground arith in
    (rw (==_ne apart) here, Holds-store m (suc a) b xs (ground arith) holds)

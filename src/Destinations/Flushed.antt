-- ===== src/Destinations/Flushed.antt =====
-- Which calls `destinations_flush` of src/malc/destinations.c makes.
use mini_async_log_c.Common.{
  ℕ, zero, suc, ◌+◌, ◌≤◌, ◌≡◌, ◌≢◌, ◌⊎◌, refl, sym, ap, ◌∙◌, Bool, true, false, ◌||◌, inl, inr,
  Bool-cases, List, [], ◌∷◌, ◌==◌, ==_refl, ==_ne, map, arith,
}
use mini_async_log_c.Destinations.Types.{Destination, Call, flush_call}
use mini_async_log_c.Destinations.Loops.{flush_loop}

-- Whether the destination at a position can be flushed.
abbrev pub has_flush : List Destination → ℕ → Bool
has_flush [] j = false
has_flush (d ∷ ds) zero = d.dst.has_flush
has_flush (d ∷ ds) (suc j) = has_flush ds j

abbrev pub contains : ℕ → List ℕ → Bool
contains j [] = false
contains j (x ∷ xs) = (x == j) || contains j xs

abbrev pub AscendingFrom : ℕ → List ℕ → Type 0
AscendingFrom k [] = Unit
AscendingFrom k (x ∷ xs) = (k ≤ x) × AscendingFrom (suc x) xs

-- The calls flush the destinations that can be, and no others, each once and in their order.
abbrev pub FlushesEach : List Destination → List Call → Type 0
FlushesEach ds calls =
    (is : List ℕ) × (calls ≡ map flush_call is)
    × AscendingFrom 0 is
    × ((j : ℕ) → contains j is ≡ has_flush ds j)

AscendingFrom-less : (k : ℕ) (is : List ℕ) → AscendingFrom (suc k) is → AscendingFrom k is
AscendingFrom-less k [] h = tt
AscendingFrom-less k (x ∷ xs) (le, h) = (omega arith, h)

contains_below : (j k : ℕ) (is : List ℕ) → j + 1 ≤ k → AscendingFrom k is → contains j is ≡ false
contains_below j k [] lt h = refl
contains_below j k (x ∷ xs) lt (le, h) =
    rw (==_ne (apart le)) (contains_below j (suc x) xs (omega (arith, le)) h)
  where
    apart : k ≤ x → x ≢ j
    apart le e = omega arith

abbrev Positions : ℕ → List Destination → List Call → Type 0
Positions i ds calls =
    (is : List ℕ) × (calls ≡ map flush_call is)
    × AscendingFrom i is
    × ((j : ℕ) → contains (i + j) is ≡ has_flush ds j)

flush_loop-Positions : (i : ℕ) (ds : List Destination) → Positions i ds (flush_loop i ds)
unfolding flush_loop
flush_loop-Positions i [] = ([], refl, tt, λ j. refl)
flush_loop-Positions i (d ∷ ds) = at (flush_loop-Positions (suc i) ds) (Bool-cases d.dst.has_flush)
  where
    shift : (j : ℕ) → i + suc j ≡ suc i + j
    shift j = omega arith

    start : i + 0 ≡ i
    start = omega arith

    behind : (j : ℕ) → i ≢ i + suc j
    behind j e = omega arith

    here :
        (is : List ℕ)
        → ((j : ℕ) → contains (suc i + j) is ≡ has_flush ds j)
        → d.dst.has_flush ≡ true
        → (j : ℕ) → contains (i + j) (i ∷ is) ≡ has_flush (d ∷ ds) j
    here is has b zero = rw (start, ==_refl i) (sym b)
    here is has b (suc j) = rw (==_ne (behind j)) (ap (λ n. contains n is) (shift j) ∙ has j)

    absent :
        (is : List ℕ)
        → AscendingFrom (suc i) is
        → ((j : ℕ) → contains (suc i + j) is ≡ has_flush ds j)
        → d.dst.has_flush ≡ false
        → (j : ℕ) → contains (i + j) is ≡ has_flush (d ∷ ds) j
    absent is asc has b zero = rw start (contains_below i (suc i) is (omega arith) asc ∙ sym b)
    absent is asc has b (suc j) = ap (λ n. contains n is) (shift j) ∙ has j

    at :
        Positions (suc i) ds (flush_loop (suc i) ds)
        → (d.dst.has_flush ≡ true) ⊎ (d.dst.has_flush ≡ false)
        → Positions i (d ∷ ds) (flush_loop i (d ∷ ds))
    at (is, e, asc, has) (inl b) = (
      i ∷ is,
      rw (flush_loop, b) (ap (λ cs. flush_call i ∷ cs) e),
      (omega arith, asc),
      here is has b,
    )
    at (is, e, asc, has) (inr b) =
        (is, rw (flush_loop, b) e, AscendingFrom-less i is asc, absent is asc has b)

-- A flush calls each destination that can be flushed once, in their order, and no other.
pub flush_loop-FlushesEach : (ds : List Destination) → FlushesEach ds (flush_loop 0 ds)
flush_loop-FlushesEach ds =
    let (is, e, asc, has) = flush_loop-Positions 0 ds in
    (is, e, asc, λ j. rw (from_zero j) at (has j))
  where
    from_zero : (j : ℕ) → 0 + j ≡ j
    from_zero j = omega arith

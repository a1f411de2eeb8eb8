-- ===== src/Wrapper/Owners.antt =====
-- `malcpp` of include/malcpp/impl/malc_base.hpp: the handles to the loggers of a program, and their
-- memory.
pub mod Reachable
use mini_async_log_c.Common.{
  ℕ, zero, suc, ◌+◌, ◌≤◌, ◌<◌, ◌≡◌, ◌≢◌, refl, sym, ap, ◌∙◌, Bool, true, false, inl, inr, ◌⊎◌,
  Bool-cases, Option, none, some, List, [], ◌∷◌, ◌++◌, if◌then◌else◌, ◌==◌, ==→eq, ==_refl, ==_ne,
  length, length-append, length-set, get_or, get_or-set_self, get_or-set_ne, get_or-append, set,
  Result, ok, err, BlErr, arith,
}
use mini_async_log_c.Wrapper.{
  Program, handle, set_handle, dealloc, construct_impl, destroy_impl, destructor, base_constructor,
  move_constructor, move_assign,
}

abbrev pub one : ℕ → Option ℕ → ℕ
one a none = 0
one a (some b) = if b == a then 1 else 0

-- How many objects have the handle, and how often its memory is allocated.
abbrev pub held : ℕ → List (Option ℕ) → ℕ
held a [] = 0
held a (o ∷ os) = one a o + held a os

abbrev pub times : ℕ → List ℕ → ℕ
times a [] = 0
times a (x ∷ xs) = (if x == a then 1 else 0) + times a xs

pub held-set :
    (a : ℕ) (os : List (Option ℕ)) (i : ℕ) (o : Option ℕ)
    → i < length os
    → held a (set os i o) + one a (get_or os i none) ≡ held a os + one a o
held-set a [] i o h = absurd (omega arith)
held-set a (x ∷ os) zero o h = omega arith
held-set a (x ∷ os) (suc i) o h = omega (arith, held-set a os i o (omega arith))

pub held-append :
    (a : ℕ) (os : List (Option ℕ)) (o : Option ℕ) → held a (os ++ (o ∷ [])) ≡ held a os + one a o
held-append a [] o = omega arith
held-append a (x ∷ os) o = omega (arith, held-append a os o)

pub held-get : (a : ℕ) (os : List (Option ℕ)) (i : ℕ) → one a (get_or os i none) ≤ held a os
held-get a [] i = omega arith
held-get a (x ∷ os) zero = omega arith
held-get a (x ∷ os) (suc i) = omega (arith, held-get a os i)

times-dealloc :
    (a b : ℕ) (xs : List ℕ) → 0 < times b xs → times a (dealloc b xs) + one a (some b) ≡ times a xs
unfolding dealloc
times-dealloc a b [] h = absurd (omega arith)
times-dealloc a b (x ∷ xs) h = elim (Bool-cases (x == b)) [
  | inl e ↦ rw (dealloc, e, ==→eq x b e) (omega arith)
  | inr e ↦ rw (dealloc, e) (omega (arith, times-dealloc a b xs (there e)))
]
  where
    there : (x == b) ≡ false → 0 < times b xs
    there e = let h' : 0 < 0 + times b xs = rw (e) at h in omega (arith, h')

-- A logger that objects hold has its memory, and no two objects hold it.
abbrev pub IsOwned : Program → Type 0
IsOwned s = (a : ℕ) → (held a s.objects ≤ times a s.live) × (times a s.live ≤ 1)

-- Memory that the allocator gives is not allocated.
abbrev pub IsFresh : Option ℕ → Program → Type 0
IsFresh none s = Unit
IsFresh (some a) s = times a s.live ≡ 0

-- The counts change together.
abbrev Balances : Program → Program → Type 0
Balances s s' = (a : ℕ) → held a s'.objects + times a s.live ≡ held a s.objects + times a s'.live

abbrev pub OnceLive : Program → Type 0
OnceLive s = (a : ℕ) → times a s.live ≤ 1

Balances-refl : (s : Program) → Balances s s
Balances-refl s a = refl

-- The handle of an object is given up, and its memory.
released :
    (i m : ℕ) (s : Program)
    → i < length s.objects
    → handle i s ≡ some m
    → IsOwned s
    → (a : ℕ)
    → (held a (set s.objects i none) + times a s.live
        ≡ held a s.objects + times a (dealloc m s.live))
      × (times a (dealloc m s.live) ≤ 1)
released i m s h e own a =
    let gone : held a (set s.objects i none) + one a (some m) ≡ held a s.objects + 0 =
      rw (e) at (held-set a s.objects i none h) in
    let back : times a (dealloc m s.live) + one a (some m) ≡ times a s.live =
      times-dealloc a m s.live in_live in
    (omega (arith, gone, back), omega (arith, back, (own a).1))
  where
    here : 0 < one m (handle i s)
    here = rw (e, ==_refl m) (omega arith)

    in_live : 0 < times m s.live
    in_live = omega (arith, here, held-get m s.objects i, (own m).0)

pub destroy_impl-Balances :
    (i : ℕ) (e : Option BlErr) (s : Program)
    → i < length s.objects
    → IsOwned s
    → Balances s (destroy_impl i e s).0 × OnceLive (destroy_impl i e s).0
unfolding destroy_impl
destroy_impl-Balances i e s h own = at (handle i s) refl e
  where
    same : Balances s s × OnceLive s
    same = (Balances-refl s, λ a. (own a).1)

    at :
        (o : Option ℕ)
        → handle i s ≡ o
        → (e : Option BlErr) → Balances s (destroy_impl i e s).0 × OnceLive (destroy_impl i e s).0
    at none q e = rw (destroy_impl, q) same
    at (some m) q (some x) = rw (destroy_impl, q) same
    at (some m) q none =
        rw (destroy_impl, q)
          ((λ a. (released i m s h q own a).0), (λ a. (released i m s h q own a).1))

-- A handle is given to an object that has none.
given :
    (i : ℕ) (o : Option ℕ) (s : Program)
    → i < length s.objects
    → handle i s ≡ none
    → (a : ℕ) → held a (set s.objects i o) ≡ held a s.objects + one a o
given i o s h e a =
    let new : held a (set s.objects i o) + 0 ≡ held a s.objects + one a o =
      rw (e) at (held-set a s.objects i o h) in
    omega (arith, new)

pub construct_impl-Balances :
    (i : ℕ) (memory : Option ℕ) (create : Option BlErr) (s : Program)
    → i < length s.objects
    → IsFresh memory s
    → IsOwned s
    → Balances s (construct_impl i memory create s).0
      × OnceLive (construct_impl i memory create s).0
unfolding construct_impl dealloc
construct_impl-Balances i memory create s h new own = at (handle i s) refl memory create new
  where
    same : Balances s s × OnceLive s
    same = (Balances-refl s, λ a. (own a).1)

    once : (m a : ℕ) → times m s.live ≡ 0 → times a (m ∷ s.live) ≤ 1
    once m a fresh = elim (Bool-cases (m == a)) [
      | inl e ↦ rw (e) (omega (arith, fresh, ap (λ x. times x s.live) (==→eq m a e)))
      | inr e ↦ rw (e) (omega (arith, (own a).1))
    ]

    undone :
        (m a : ℕ)
        → handle i s ≡ none
        → held a (set (set s.objects i (some m)) i none) ≡ held a s.objects
    undone m a q =
        let first : held a (set s.objects i (some m)) ≡ held a s.objects + one a (some m) =
          given i (some m) s h q a in
        let second : held a (set (set s.objects i (some m)) i none) + one a (some m)
            ≡ held a (set s.objects i (some m)) + 0 =
          rw (get_or-set_self s.objects i (some m) none h) at (
            held-set a (set s.objects i (some m)) i none
              (omega (arith, length-set s.objects i (some m)))) in
        omega (arith, first, second)

    at :
        (o : Option ℕ)
        → handle i s ≡ o
        → (memory : Option ℕ) (create : Option BlErr) → IsFresh memory s
        → Balances s (construct_impl i memory create s).0
          × OnceLive (construct_impl i memory create s).0
    at (some m) q memory create new = rw (construct_impl, q) same
    at none q none create new = rw (construct_impl, q) same
    at none q (some m) none new =
        rw (construct_impl, q) ((λ a. omega (arith, given i (some m) s h q a)), (λ a. once m a new))
    at none q (some m) (some e) new =
        rw (construct_impl, q, dealloc, ==_refl m)
          ((λ a. omega (arith, undone m a q)), (λ a. (own a).1))

pub move_constructor-Balances :
    (j : ℕ) (s : Program) → j < length s.objects → Balances s (move_constructor j s)
unfolding move_constructor
move_constructor-Balances j s h a =
    let long : j < length (s.objects ++ (handle j s ∷ [])) =
      omega (arith, length-append s.objects (handle j s ∷ [])) in
    let emptied : held a (set (s.objects ++ (handle j s ∷ [])) j none) + one a (handle j s)
        ≡ held a (s.objects ++ (handle j s ∷ [])) + 0 =
      rw (get_or-append s.objects (handle j s ∷ []) j none h) at
        (held-set a (s.objects ++ (handle j s ∷ [])) j none long) in
    omega (arith, emptied, held-append a s.objects (handle j s))

-- The handle of the object that is moved to is lost, and no other.
pub move_assign-loses :
    (i j : ℕ) (s : Program)
    → i < length s.objects
    → j < length s.objects
    → i ≢ j
    → (a : ℕ) → held a (move_assign i j s).objects + one a (handle i s) ≡ held a s.objects
unfolding move_assign
move_assign-loses i j s hi hj ne a =
    let first : held a (set s.objects i (handle j s)) + one a (handle i s)
        ≡ held a s.objects + one a (handle j s) =
      held-set a s.objects i (handle j s) hi in
    let second : held a (set (set s.objects i (handle j s)) j none) + one a (handle j s)
        ≡ held a (set s.objects i (handle j s)) + 0 =
      rw (get_or-set_ne s.objects i j (handle j s) none ne) at (
        held-set a (set s.objects i (handle j s)) j none
          (omega (arith, length-set s.objects i (handle j s)))) in
    rw (move_assign, ==_ne ne) (omega (arith, first, second))

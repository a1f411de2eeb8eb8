-- ===== src/Wrapper/Owners/Reachable.antt =====
-- A program that makes, constructs, moves and destroys objects of `malcpp` of
-- include/malcpp/impl/malc_base.hpp, in any order.
use mini_async_log_c.Common.{
  ℕ, ◌+◌, ◌≤◌, ◌<◌, ◌≡◌, ◌≢◌, refl, Bool, true, false, inl, inr, ◌⊎◌, Bool-cases, Option, none,
  some, [], ◌==◌, ==→ne, ==_refl, ==_ne, length, length-set, BlErr, arith,
}
use mini_async_log_c.Wrapper.{
  Program, handle, set_handle, construct_impl, destroy_impl, destructor, base_constructor,
  move_constructor, move_assign,
}
use mini_async_log_c.Wrapper.Owners.{
  one, held, times, held-set, held-append, held-get, IsOwned, IsFresh, Balances, OnceLive,
  destroy_impl-Balances, construct_impl-Balances, move_constructor-Balances, move_assign-loses,
}

abbrev pub HasObject : ℕ → Program → Type 0
HasObject i s = i < length s.objects

pub data Step : Program → Program → Type 0 where
  make_object : {s : Program} → Step s (base_constructor s)
  construct :
      (i : ℕ) (memory : Option ℕ) (create : Option BlErr) {s : Program}
      → HasObject i s
      → IsFresh memory s
      → Step s (construct_impl i memory create s).0
  destroy : (i : ℕ) (e : Option BlErr) {s : Program} → HasObject i s → Step s (destroy_impl i e s).0
  leave :
      (i : ℕ) (autodestroy : Bool) (e : Option BlErr) {s : Program}
      → HasObject i s
      → Step s (destructor i autodestroy e s)
  move : (j : ℕ) {s : Program} → HasObject j s → Step s (move_constructor j s)
  assign : (i j : ℕ) {s : Program} → HasObject i s → HasObject j s → Step s (move_assign i j s)

abbrev pub no_objects : Program
no_objects = record { objects = []; live = [] }

pub data Reach : Program → Type 0 where
  start : Reach no_objects
  later : {s t : Program} → Reach s → Step s t → Reach t

balanced-IsOwned : (s t : Program) → IsOwned s → Balances s t → OnceLive t → IsOwned t
balanced-IsOwned s t own bal once a = (omega (arith, (own a).0, bal a), once a)

length-destroy_impl :
    (i : ℕ) (e : Option BlErr) (s : Program)
    → length (destroy_impl i e s).0.objects ≡ length s.objects
unfolding destroy_impl
length-destroy_impl i e s = at (handle i s) refl e
  where
    at :
        (o : Option ℕ)
        → handle i s ≡ o
        → (e : Option BlErr) → length (destroy_impl i e s).0.objects ≡ length s.objects
    at none q e = rw (destroy_impl, q) refl
    at (some m) q (some x) = rw (destroy_impl, q) refl
    at (some m) q none = rw (destroy_impl, q) (length-set s.objects i none)

dropped-IsOwned : (i : ℕ) (s : Program) → HasObject i s → IsOwned s → IsOwned (set_handle i none s)
dropped-IsOwned i s h own a = (omega (arith, (own a).0, held-set a s.objects i none h), (own a).1)

destructor-IsOwned :
    (i : ℕ) (autodestroy : Bool) (e : Option BlErr) (s : Program)
    → HasObject i s
    → IsOwned s
    → IsOwned (destructor i autodestroy e s)
unfolding destructor
destructor-IsOwned i false e s h own = dropped-IsOwned i s h own
destructor-IsOwned i true e s h own =
    let (bal, once) = destroy_impl-Balances i e s h own in
    dropped-IsOwned i (destroy_impl i e s).0 (omega (arith, length-destroy_impl i e s, h))
      (balanced-IsOwned s (destroy_impl i e s).0 own bal once)

move_assign-IsOwned :
    (i j : ℕ) (s : Program)
    → HasObject i s
    → HasObject j s
    → IsOwned s
    → IsOwned (move_assign i j s)
unfolding move_assign
move_assign-IsOwned i j s hi hj own = at (Bool-cases (i == j))
  where
    at : (i == j ≡ true) ⊎ (i == j ≡ false) → IsOwned (move_assign i j s)
    at (inl e) = rw (move_assign, e) own
    at (inr e) = λ a. (
      omega (arith, (own a).0, move_assign-loses i j s hi hj (==→ne i j e) a, kept e a),
      omega (arith, (own a).1, kept e a),
    )
      where
        kept : (i == j) ≡ false → (a : ℕ) → times a (move_assign i j s).live ≡ times a s.live
        kept e a = rw (move_assign, e) refl

Step-IsOwned : {s t : Program} → Step s t → IsOwned s → IsOwned t
unfolding base_constructor move_constructor
Step-IsOwned (make_object {s}) own =
    λ a. (omega (arith, (own a).0, held-append a s.objects none), (own a).1)
Step-IsOwned (construct i memory create {s} h new) own =
    let (bal, once) = construct_impl-Balances i memory create s h new own in
    balanced-IsOwned s (construct_impl i memory create s).0 own bal once
Step-IsOwned (destroy i e {s} h) own =
    let (bal, once) = destroy_impl-Balances i e s h own in
    balanced-IsOwned s (destroy_impl i e s).0 own bal once
Step-IsOwned (leave i autodestroy e {s} h) own = destructor-IsOwned i autodestroy e s h own
Step-IsOwned (move j {s} h) own =
    balanced-IsOwned s (move_constructor j s) own (move_constructor-Balances j s h) (λ a. (own a).1)
Step-IsOwned (assign i j {s} hi hj) own = move_assign-IsOwned i j s hi hj own

-- Whatever a program constructs, moves, assigns and destroys in turn, with any outcome of the calls,
-- no two of its objects hold the same logger, and the logger that an object holds is allocated. The
-- allocator gives memory that is not allocated.
pub Reach-IsOwned : {s : Program} → Reach s → IsOwned s
Reach-IsOwned start = λ a. (omega arith, omega arith)
Reach-IsOwned (later r step) = Step-IsOwned step (Reach-IsOwned r)

-- In a program that has come about in this way, an assignment that moves another object into one
-- with a logger loses this logger: it stays allocated, and no object holds it.
pub move_assign-leaks :
    {s : Program} (i j a : ℕ)
    → Reach s
    → HasObject i s
    → HasObject j s
    → i ≢ j
    → handle i s ≡ some a
    → (held a (move_assign i j s).objects ≡ 0) × (times a (move_assign i j s).live ≡ 1)
unfolding move_assign
move_assign-leaks {s} i j a r hi hj ne e =
    let own = Reach-IsOwned r a in
    let here : 1 ≤ held a s.objects = omega (arith, held_one, held-get a s.objects i) in
    let lost : held a (move_assign i j s).objects + 1 ≡ held a s.objects = taken in
    (omega (arith, own.0, own.1, here, lost), omega (arith, own.0, own.1, here, kept))
  where
    kept : times a (move_assign i j s).live ≡ times a s.live
    kept = rw (move_assign, ==_ne ne) refl

    held_one : one a (handle i s) ≡ 1
    held_one = rw (e, ==_refl a) refl

    taken : held a (move_assign i j s).objects + 1 ≡ held a s.objects
    taken = omega (arith, held_one, move_assign-loses i j s hi hj ne a)

-- ===== src/Wrapper/Construct.antt =====
-- `construct_throw_impl` and the constructor of `malcpp`, of include/malcpp/impl/malc_base.hpp.
use mini_async_log_c.Common.{
  ℕ, zero, suc, ◌≡◌, refl, sym, ap, ◌∙◌, inl, inr, ◌⊎◌, Bool, Option, none, some, List, [], ◌∷◌,
  if◌then◌else◌, ==_refl, length, get_or, set, Result, ok, err, BlErr, alloc, invalid,
}
use mini_async_log_c.Wrapper.{
  Program, handle, set_handle, dealloc, construct_impl, base_constructor,
}

-- The texts of the exception.
pub data ConstructError : Type 0 where
  already_constructed unable_to_create : ConstructError

-- The text, by the object's handle.
abbrev pub reason : Option ℕ → ConstructError
reason none = unable_to_create
reason (some a) = already_constructed

-- `construct_throw_impl`, with what it throws, and what follows its call of `construct_impl`.
unfoldable pub throw_failed : ℕ → Program × Result (Unit {0}) → Program × Option ConstructError
throw_failed i (s, ok u) = (s, none)
throw_failed i (s, err e) = (s, some (reason (handle i s)))

unfoldable pub construct_throw_impl :
    ℕ → Option ℕ → Option BlErr → Program → Program × Option ConstructError
unfolding construct_impl throw_failed
construct_throw_impl i memory create s = throw_failed i (construct_impl i memory create s)

-- The constructor of a new object. What it throws is thrown when the base is there, whose destructor then
-- runs.
unfoldable pub constructor :
    Bool → Option ℕ → Option BlErr → Program → Program × Option ConstructError
unfolding construct_throw_impl base_constructor
constructor autoconstruct memory create s =
    let i = length s.objects in
    let s' = base_constructor s in
    if autoconstruct
    then (let (s'', thrown) = construct_throw_impl i memory create s' in
        elim thrown [ none ↦ (s'', none) | some t ↦ (set_handle i none s'', some t) ])
    else (s', none)

-- To set a handle that there was not, and to reset it.
set_back :
    (os : List (Option ℕ)) (i : ℕ) (o : Option ℕ)
    → get_or os i none ≡ none
    → set (set os i o) i none ≡ os
set_back [] i o h = refl
set_back (x ∷ os) zero o h = ap (λ y. y ∷ os) (sym h)
set_back (x ∷ os) (suc i) o h = ap (λ l. x ∷ l) (set_back os i o h)

module _ (i : ℕ) (s : Program) where
  -- The program after an error of `malc_create`.
  abbrev given_back : ℕ → Program
  given_back a =
      let made = set_handle i (some a) (record s { live = a ∷ s.live }) in
      set_handle i none (record made { live = dealloc a (a ∷ s.live) })

  given_back-none : (a : ℕ) → handle i s ≡ none → given_back a ≡ s
  unfolding dealloc
  given_back-none a h =
      rw (==_refl a) (ap (λ os. record s { objects = os }) (set_back s.objects i (some a) h))

  abbrev Outcome : Program × Result (Unit {0}) → Type 0
  Outcome r = ((s' : Program) × (r ≡ (s', ok tt))) ⊎ ((e : BlErr) × (r ≡ (s, err e)))

  construct_impl-Outcome :
      (o memory : Option ℕ) (create : Option BlErr)
      → handle i s ≡ o
      → Outcome (construct_impl i memory create s)
  unfolding construct_impl
  construct_impl-Outcome (some a) memory create h = rw (construct_impl, h) (inr (invalid, refl))
  construct_impl-Outcome none none create h = rw (construct_impl, h) (inr (alloc, refl))
  construct_impl-Outcome none (some a) none h = rw (construct_impl, h) (inl (_, refl))
  construct_impl-Outcome none (some a) (some x) h =
      rw (construct_impl, h) (inr (x, ap (λ r. (r, err x)) (given_back-none a h)))

-- An exception leaves the program as it was, and its text says whether the object has a logger
-- already.
pub construct_throw_impl-thrown :
    (i : ℕ) (memory : Option ℕ) (create : Option BlErr) (s s' : Program) (t : ConstructError)
    → construct_throw_impl i memory create s ≡ (s', some t)
    → (s' ≡ s) × (t ≡ reason (handle i s))
unfolding construct_throw_impl throw_failed
construct_throw_impl-thrown i memory create s s' t e =
    elim (construct_impl-Outcome i s (handle i s) memory create refl) [
      | inl (made, none_failed) ↦
          absurd (not_thrown made (sym (ap (throw_failed i) none_failed) ∙ e))
      | inr (x, failed) ↦ done (sym (ap (throw_failed i) failed) ∙ e)
    ]
  where
    not_thrown :
        (made : Program) → ◌≡◌ {A = Program × Option ConstructError} (made, none) (s', some t) → ⊥
    not_thrown made eq = cc

    done :
        ◌≡◌ {A = Program × Option ConstructError} (s, some (reason (handle i s))) (s', some t)
        → (s' ≡ s) × (t ≡ reason (handle i s))
    done eq = (cc, cc)

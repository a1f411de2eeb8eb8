-- ===== src/Memory/TssList.antt =====
-- The list of registered thread buffers of src/malc/memory.c: an array of addresses, where null
-- marks a place to use again.
use mini_async_log_c.Common.{
  ℕ, ◌+◌, ◌≡◌, ◌≢◌, refl, Bool, true, false, List, [], ◌∷◌, ◌++◌, if◌then◌else◌, ◌==◌, ◌&&◌, ltb,
  Result, ok, err, alloc, arith,
}

abbrev pub nullptr : ℕ
nullptr = 0

-- The loop of `memory_tls_register` that looks for a null: whether there was one.
unfoldable pub fill_null : ℕ → List ℕ → List ℕ × Bool
fill_null mem [] = ([], false)
fill_null mem (x ∷ l) =
    let (l', found) = fill_null mem l in if x == nullptr then (mem ∷ l, true) else (x ∷ l', found)

-- `memory_tls_register`; `has_room` is whether the array can grow.
unfoldable pub tls_register : Bool → ℕ → List ℕ → List ℕ × Result (Unit {0})
unfolding fill_null
tls_register has_room mem l =
    let (l', found) = fill_null mem l in
    if found then (l', ok tt) else if has_room then (l ++ (mem ∷ []), ok tt) else (l, err alloc)

-- `memory_tls_destroy`: whether the address was found, and so deallocated.
unfoldable pub tls_destroy : ℕ → List ℕ → List ℕ × Bool
tls_destroy mem [] = ([], false)
tls_destroy mem (x ∷ l) =
    let (l', found) = tls_destroy mem l in if x == mem then (nullptr ∷ l, true) else (x ∷ l', found)

-- `memory_tls_destroy_all`: the list afterwards, and the addresses deallocated, in order.
unfoldable pub tls_destroy_all : List ℕ → List ℕ × List ℕ
tls_destroy_all [] = ([], [])
tls_destroy_all (x ∷ l) =
    let (l', freed) = tls_destroy_all l in
    if x == nullptr then (x ∷ l', freed) else (nullptr ∷ l', x ∷ freed)

abbrev pub count : ℕ → List ℕ → ℕ
count a [] = 0
count a (x ∷ l) = (if x == a then 1 else 0) + count a l

count-fill_null :
    (mem a : ℕ) (l : List ℕ)
    → a ≢ nullptr
    → mem ≢ nullptr
    → (fill_null mem l).1 ≡ true
    → count a (fill_null mem l).0 ≡ count a l + (if mem == a then 1 else 0)
unfolding fill_null
count-fill_null mem a [] ha hm e = absurd (cc e)
count-fill_null mem a (x ∷ l) ha hm e = ground (arith, count-fill_null mem a l)

count-append :
    (a m : ℕ) (l : List ℕ) → count a (l ++ (m ∷ [])) ≡ count a l + (if m == a then 1 else 0)
count-append a m [] = ground arith
count-append a m (x ∷ l) = ground (arith, count-append a m l)

-- A successful registration of a buffer counts it once more and every other buffer as often as
-- before; neither address is null.
pub tls_register-count :
    (has_room : Bool) (mem a : ℕ) (l : List ℕ)
    → mem ≢ nullptr
    → a ≢ nullptr
    → (tls_register has_room mem l).1 ≡ ok tt
    → count a (tls_register has_room mem l).0 ≡ count a l + (if mem == a then 1 else 0)
unfolding tls_register
tls_register-count has_room mem a l hm ha e =
    ground (arith, count-fill_null mem a l, count-append a mem l)

-- `memory_tls_destroy` reports whether the buffer is registered, and if so takes it out once and
-- leaves every other buffer, of an address that is not null, as often as it was.
pub tls_destroy-count :
    (mem a : ℕ) (l : List ℕ)
    → a ≢ nullptr
    → ((tls_destroy mem l).1 ≡ ltb 0 (count mem l))
      × (count a (tls_destroy mem l).0 + (if (tls_destroy mem l).1 && (mem == a) then 1 else 0)
          ≡ count a l)
unfolding tls_destroy
tls_destroy-count mem a [] ha = (refl, refl)
tls_destroy-count mem a (x ∷ l) ha = ground (arith, tls_destroy-count mem a l ha)

-- What `memory_tls_destroy_all` deallocates is every registered buffer, of an address that is
-- not null, as often as it is registered, and afterwards none is.
pub tls_destroy_all-count :
    (a : ℕ) (l : List ℕ)
    → a ≢ nullptr
    → (count a (tls_destroy_all l).1 ≡ count a l) × (count a (tls_destroy_all l).0 ≡ 0)
unfolding tls_destroy_all
tls_destroy_all-count a [] ha = (refl, refl)
tls_destroy_all-count a (x ∷ l) ha = ground (arith, tls_destroy_all-count a l ha)

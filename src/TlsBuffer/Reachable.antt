-- ===== src/TlsBuffer/Reachable.antt =====
-- The states that a thread's buffer of src/malc/tls_buffer.c can get into.
use mathlib.Core.Path.{subst}
use native.Mathlib.Nat.{div-add-mod', mod-lt}
use mini_async_log_c.Common.{
  ℕ, ◌+◌, ◌*◌, ◌^◌, ◌≤◌, ◌<◌, ◌≡◌, refl, ◌∙◌, sym, ap, inl, inr, Option, some, List, [], ◌∷◌, ◌++◌,
  All, ok, Bool, arith,
}
use mini_async_log_c.TlsBuffer.{
  Words, TlsBuffer, dealloc, init, init_size, sizeof_tls_buffer, mul_u32, aligned_mem,
}
use mini_async_log_c.TlsBuffer.Loops.{free_slots_out, mul_lt}
use mini_async_log_c.TlsBuffer.Exclusive.{
  Region, System, Step, allocate, deallocate, Reach, initial, advance, Apart, AllApart, IsLive,
  IsValid, Inv, alloc_slots-Found, allocate-Inv, mul_le,
}

-- A deallocation does not touch the first word of a region that lies apart.
dealloc-Apart :
    (size : ℕ) (w : Words) (r q : Region)
    → 0 < size
    → 0 < q.slots
    → Apart size r q
    → dealloc r.addr r.slots size w q.addr ≡ w q.addr
unfolding dealloc
dealloc-Apart size w r q pos taken apart =
    free_slots_out r.slots r.addr (r.addr + mul_u32 size r.slots) size w q.addr λ i lt e.
      elim apart [
        | inl behind ↦ omega (arith, mul_lt size i r.slots pos lt)
        | inr before ↦ omega (arith, mul_le size 1 q.slots taken)
      ]

module _ (t : TlsBuffer) (w : Words) (r : Region) (v : IsValid t) where
  freed-IsLive :
      (q : Region)
      → Apart t.slot_size r q
      → IsLive t w q
      → IsLive t (dealloc r.addr r.slots t.slot_size w) q
  freed-IsLive q apart l = record {
    index = l.index;
    addr_eq = l.addr_eq;
    some_slots = l.some_slots;
    inside = l.inside;
    taken = λ e. l.taken (sym (dealloc-Apart t.slot_size w r q v.size_pos l.some_slots apart) ∙ e);
    no_start = l.no_start;
  }

  freed-All :
      (qs : List Region)
      → All (Apart t.slot_size r) qs
      → All (IsLive t w) qs
      → All (IsLive t (dealloc r.addr r.slots t.slot_size w)) qs
  freed-All [] a l = tt
  freed-All (q ∷ qs) a l = (freed-IsLive q a.0 l.0, freed-All qs a.1 l.1)

All-remove {ℓ κ} :
    {A : Type ℓ} (P : A → Type κ) (front back : List A) (r : A)
    → All P (front ++ (r ∷ back))
    → All P (front ++ back)
All-remove P [] back r h = h.1
All-remove P (x ∷ front) back r h = (h.0, All-remove P front back r h.1)

All-mid {ℓ κ} :
    {A : Type ℓ} (P : A → Type κ) (front back : List A) (r : A) → All P (front ++ (r ∷ back)) → P r
All-mid P [] back r h = h.0
All-mid P (x ∷ front) back r h = All-mid P front back r h.1

module _ (size : ℕ) where
  Apart-symm : (r q : Region) → Apart size r q → Apart size q r
  Apart-symm r q (inl h) = inr h
  Apart-symm r q (inr h) = inl h

  -- A region that is taken out of the list lies apart from all that stay.
  AllApart-remove :
      (front back : List Region) (r : Region)
      → AllApart size (front ++ (r ∷ back))
      → AllApart size (front ++ back) × All (Apart size r) (front ++ back)
  AllApart-remove [] back r h = (h.1, h.0)
  AllApart-remove (q ∷ front) back r h =
      let (rest, mine) = AllApart-remove front back r h.1 in
      (
        (All-remove (Apart size q) front back r h.0, rest),
        (Apart-symm q r (All-mid (Apart size q) front back r h.0), mine),
      )

pub deallocate-Inv :
    (s : System) (front back : List Region) (r : Region)
    → s.live ≡ front ++ (r ∷ back)
    → Inv s
    → Inv
        (record s { words = dealloc r.addr r.slots s.buf.slot_size s.words; live = front ++ back })
deallocate-Inv s front back r e inv =
    let apart : AllApart s.buf.slot_size (front ++ (r ∷ back)) = rw e at inv.apart in
    let live : All (IsLive s.buf s.words) (front ++ (r ∷ back)) = rw e at inv.live in
    let (rest, mine) = AllApart-remove s.buf.slot_size front back r apart in
    record {
      valid = inv.valid;
      live =
          freed-All s.buf s.words r inv.valid (front ++ back) mine
            (All-remove (IsLive s.buf s.words) front back r live);
      apart = rest;
    }

Step-Inv : {s u : System} → Step s u → Inv s → Inv u
Step-Inv {s} (allocate {a} {n} {t} {w} pos e outside taken) inv =
    allocate-Inv s a n t w pos e outside taken inv
Step-Inv {s} (deallocate front back r e) inv = deallocate-Inv s front back r e inv

Reach-Inv : {s u : System} → Inv s → Reach s u → Inv u
Reach-Inv inv initial = inv
Reach-Inv inv (advance r st) = Step-Inv st (Reach-Inv inv r)

-- Nothing of the buffer changes but where the next allocation starts.
Step-same : {s u : System} → Step s u → u.buf ≡ record s.buf { slot = u.buf.slot }
Step-same {s} (allocate {a} {n} {t} {w} pos e outside taken) =
    rw ((alloc_slots-Found s.buf s.words n a t e).moved)
Step-same (deallocate front back r e) = refl

Reach-same : {s u : System} → Reach s u → u.buf ≡ record s.buf { slot = u.buf.slot }
Reach-same initial = refl
Reach-same {u} (advance r st) =
    Step-same st ∙ ap (λ (b : TlsBuffer). record b { slot = u.buf.slot }) (Reach-same r)

-- A buffer fresh from `tls_buffer_init`, with no allocation.
abbrev pub fresh : TlsBuffer → Words → System
fresh t w = record { buf = t; words = w; live = [] }

-- What `tls_buffer_init` makes of the chunk at address `chunk`.
pub record Made (chunk size count : ℕ) (t : TlsBuffer) : Type 0 where
  pub mem_eq : t.mem ≡ aligned_mem chunk size
  pub end_eq : t.mem_end ≡ aligned_mem chunk size + count * size
  pub slot_eq : t.slot ≡ aligned_mem chunk size
  pub size_eq : t.slot_size ≡ size
  pub count_eq : t.slot_count ≡ count

pub init-Made :
    (bl_alloc : ℕ → Option ℕ) (chunk size count : ℕ) (dtor : Bool) (w w' : Words) (t : TlsBuffer)
    → bl_alloc (init_size size count) ≡ some chunk
    → init bl_alloc size count dtor w ≡ ok (t, w')
    → Made chunk size count t
unfolding init
init-Made bl_alloc chunk size count dtor w w' t h e = ground arith

Made-IsValid :
    (chunk size count : ℕ) (t : TlsBuffer) → 0 < size → Made chunk size count t → IsValid t
Made-IsValid chunk size count t pos m = record {
  size_pos = omega (arith, m.size_eq);
  end_eq = rw (m.size_eq, m.count_eq, m.mem_eq) m.end_eq;
  next_index = 0;
  slot_eq = omega (arith, m.slot_eq, m.mem_eq);
}

-- The first slot starts behind the buffer's own fields, and at most one slot's size further.
aligned_bounds :
    (chunk size : ℕ)
    → 0 < size
    → (chunk + sizeof_tls_buffer < aligned_mem chunk size)
      × (aligned_mem chunk size ≤ chunk + sizeof_tls_buffer + size)
aligned_bounds chunk size pos =
    let x : ℕ = chunk + sizeof_tls_buffer + size in
    (omega (arith, div-add-mod' x size, mod-lt x pos), omega (arith, div-add-mod' x size))

-- A region lies in the chunk that was allocated, behind the buffer's own fields.
abbrev pub InChunk : ℕ → ℕ → ℕ → Region → Type 0
InChunk chunk size count r =
    (chunk + sizeof_tls_buffer < r.addr) × (r.addr + r.slots * size ≤ chunk + init_size size count)

module _ (chunk size count : ℕ) (t : TlsBuffer) (m : Made chunk size count t) (pos : 0 < size)
    (small : count * size < 2 ^ 32) where
  live-InChunk :
      (w : Words) (j : ℕ) (r : Region)
      → IsLive (record t { slot = j }) w r
      → InChunk chunk size count r
  live-InChunk w j r l =
      let (lo, hi) = aligned_bounds chunk size pos in
      let addr : r.addr ≡ aligned_mem chunk size + l.index * size =
        rw (m.mem_eq, m.size_eq) at l.addr_eq in
      let fit : l.index + r.slots ≤ count = omega (arith, l.inside, m.count_eq) in
      (omega arith, omega (arith, mul_le size (l.index + r.slots) count fit))

  All-InChunk :
      (w : Words) (j : ℕ) (rs : List Region)
      → All (IsLive (record t { slot = j }) w) rs
      → All (InChunk chunk size count) rs
  All-InChunk w j [] l = tt
  All-InChunk w j (r ∷ rs) l = (live-InChunk w j r l.0, All-InChunk w j rs l.1)

-- From a buffer that `tls_buffer_init` has made, with slots of at least a byte and less than 2^32
-- bytes in all, any sequence of successful allocations of at least one slot and of deallocations in
-- any order leaves the allocations in use pairwise apart and inside the chunk that was allocated,
-- behind the buffer's own fields. The client may write anything inside its allocation but the free
-- mark in the first word.
pub Reach-exclusive :
    (bl_alloc : ℕ → Option ℕ) (chunk size count : ℕ) (dtor : Bool) (w w' : Words) (t : TlsBuffer)
    (s : System)
    → 0 < size
    → count * size < 2 ^ 32
    → bl_alloc (init_size size count) ≡ some chunk
    → init bl_alloc size count dtor w ≡ ok (t, w')
    → Reach (fresh t w') s
    → AllApart size s.live × All (InChunk chunk size count) s.live
Reach-exclusive bl_alloc chunk size count dtor w w' t s pos small h e r =
    let m : Made chunk size count t = init-Made bl_alloc chunk size count dtor w w' t h e in
    let start : Inv (fresh t w') = record {
      valid = Made-IsValid chunk size count t pos m;
      live = tt;
      apart = tt;
    } in
    let inv : Inv s = Reach-Inv start r in
    let same : s.buf ≡ record t { slot = s.buf.slot } = Reach-same r in
    let size_same : s.buf.slot_size ≡ size = ap (λ (b : TlsBuffer). b.slot_size) same ∙ m.size_eq in
    (
      subst (λ k. AllApart k s.live) size_same inv.apart,
      All-InChunk chunk size count t m pos small s.words s.buf.slot s.live
          (subst (λ b. All (IsLive b s.words) s.live) same inv.live),
    )

-- With 2^32 bytes or more in all, and slots of at least a byte and at most 2^32 bytes, the chunk
-- that `tls_buffer_init` asks for is too small: the buffer that it returns ends behind the
-- chunk's end.
pub init_overflow :
    (bl_alloc : ℕ → Option ℕ) (chunk size count : ℕ) (dtor : Bool) (w w' : Words) (t : TlsBuffer)
    → 0 < size
    → size ≤ 2 ^ 32
    → 2 ^ 32 ≤ count * size
    → bl_alloc (init_size size count) ≡ some chunk
    → init bl_alloc size count dtor w ≡ ok (t, w')
    → chunk + init_size size count < t.mem_end
init_overflow bl_alloc chunk size count dtor w w' t pos le big h e =
    let m : Made chunk size count t = init-Made bl_alloc chunk size count dtor w w' t h e in
    omega (arith, m.end_eq, aligned_bounds chunk size pos)

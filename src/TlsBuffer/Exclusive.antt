-- ===== src/TlsBuffer/Exclusive.antt =====
-- Every sequence of allocations and deallocations of one thread's buffer hands out memory that no
-- other allocation is using, although only the first word of an allocation is known not to read
-- as free: what the entry's payload puts at the other slots' first words does not matter.
use native.Mathlib.Decide.{dec_lt}
use mini_async_log_c.Common.{
  ℕ, ◌+◌, ◌-◌, ◌*◌, ◌≤◌, ◌<◌, ◌≡◌, ◌≢◌, refl, ◌∙◌, sym, ap, ◌⊎◌, inl, inr, true, Bool-cases, List,
  [], ◌∷◌, ◌++◌, All, ok, ltb, arith,
}
use mini_async_log_c.TlsBuffer.{
  Words, TlsBuffer, free_uword, dealloc, all_free, slot_start, alloc_slots,
}
use mini_async_log_c.TlsBuffer.Loops.{at, all_free_lem, mul_lt}

-- An allocation that is in use.
pub record Region : Type 0 where
  pub addr : ℕ
  pub slots : ℕ

pub record System : Type 0 where
  pub buf : TlsBuffer
  pub words : Words
  pub live : List Region

-- `allocate`: the client then writes where it likes inside its memory, but leaves something else
-- than the free mark in the first word. `deallocate`: of any allocation in use, in any order.
pub data Step (s : System) : System → Type 0 where
  allocate :
      {a n : ℕ} {t : TlsBuffer} {w : Words}
      → 0 < n
      → alloc_slots s.buf n s.words ≡ ok (a, t)
      → ((x : ℕ) → (x < a) ⊎ (a + n * s.buf.slot_size ≤ x) → w x ≡ s.words x)
      → w a ≢ free_uword
      → Step s (record { buf = t; words = w; live = record { addr = a; slots = n } ∷ s.live })
  deallocate :
      (front back : List Region) (r : Region)
      → s.live ≡ front ++ (r ∷ back)
      → Step s (record s {
        words = dealloc r.addr r.slots s.buf.slot_size s.words;
        live = front ++ back;
      })

pub data Reach (s : System) : System → Type 0 where
  initial : Reach s s
  advance : {t u : System} → Reach s t → Step t u → Reach s u

abbrev pub Apart : ℕ → Region → Region → Type 0
Apart size r q = (r.addr + r.slots * size ≤ q.addr) ⊎ (q.addr + q.slots * size ≤ r.addr)

abbrev pub AllApart : ℕ → List Region → Type 0
AllApart size [] = Unit
AllApart size (r ∷ rs) = All (Apart size r) rs × AllApart size rs

-- A region of whole slots whose first word is taken, and in which the next allocation cannot start.
pub record IsLive (t : TlsBuffer) (w : Words) (r : Region) : Type 0 where
  pub index : ℕ
  pub addr_eq : r.addr ≡ at t.mem t.slot_size index
  pub some_slots : 0 < r.slots
  pub inside : index + r.slots ≤ t.slot_count
  pub taken : w r.addr ≢ free_uword
  pub no_start : (t.slot ≤ r.addr) ⊎ (r.addr + r.slots * t.slot_size ≤ t.slot)

pub record IsValid (t : TlsBuffer) : Type 0 where
  pub size_pos : 0 < t.slot_size
  pub end_eq : t.mem_end ≡ at t.mem t.slot_size t.slot_count
  pub next_index : ℕ
  pub slot_eq : t.slot ≡ at t.mem t.slot_size next_index

pub record Inv (s : System) : Type 0 where
  pub valid : IsValid s.buf
  pub live : All (IsLive s.buf s.words) s.live
  pub apart : AllApart s.buf.slot_size s.live

pub mul_le : (size j k : ℕ) → j ≤ k → j * size ≤ k * size
mul_le size j k h = grind arith

-- What a successful allocation has found.
pub record Found (t : TlsBuffer) (w : Words) (n a : ℕ) (t' : TlsBuffer) : Type 0 where
  pub at_start : a ≡ slot_start t n
  pub moved : t' ≡ record t { slot = a + n * t.slot_size }
  pub frees : all_free n a t.slot_size w ≡ true
  pub few : n ≤ t.slot_count

pub alloc_slots-Found :
    (t : TlsBuffer) (w : Words) (n a : ℕ) (t' : TlsBuffer)
    → alloc_slots t n w ≡ ok (a, t')
    → Found t w n a t'
unfolding alloc_slots
alloc_slots-Found t w n a t' e = ground arith

-- It starts at the first slot or at the next one, with all its slots in the buffer.
pub record Start (t : TlsBuffer) (n a : ℕ) : Type 0 where
  pub index : ℕ
  pub addr_eq : a ≡ at t.mem t.slot_size index
  pub inside : index + n ≤ t.slot_count
  pub where_from : (index ≡ 0) ⊎ (a ≡ t.slot)

slot_start-Start :
    (t : TlsBuffer) (n : ℕ) → IsValid t → n ≤ t.slot_count → Start t n (slot_start t n)
slot_start-Start t n v few = elim (Bool-cases (ltb t.mem_end (t.slot + n * t.slot_size))) [
  | inl wraps ↦
      rw wraps
        (record { index = 0; addr_eq = omega arith; inside = omega arith; where_from = inl refl })
  | inr fits ↦ rw fits (record {
    index = v.next_index;
    addr_eq = v.slot_eq;
    inside = room (ground arith);
    where_from = inr refl;
  })
]
  where
    room : t.slot + n * t.slot_size ≤ t.mem_end → v.next_index + n ≤ t.slot_count
    room le = elim (dec_lt t.slot_count (v.next_index + n)) [
      | yes p ↦ absurd (
          omega (
            arith,
            v.slot_eq,
            v.end_eq,
            mul_lt t.slot_size t.slot_count (v.next_index + n) v.size_pos p,
          ))
      | no p ↦ omega arith
    ]

module _ (t : TlsBuffer) (w : Words) (n a : ℕ) (v : IsValid t) (pos : 0 < n)
    (free : (i : ℕ) → i < n → w (at a t.slot_size i) ≡ free_uword) (st : Start t n a) where
  -- No region in use starts in the slots that are found free, so each lies on one side of them.
  found-Apart : (r : Region) → IsLive t w r → Apart t.slot_size (record { addr = a; slots = n }) r
  found-Apart r l = elim (dec_lt l.index st.index) [
    | yes before ↦ elim st.where_from [
      | inl first ↦ absurd (omega arith)
      | inr behind_last ↦ elim l.no_start [
        | inl starts ↦ absurd (
            omega
              (arith, st.addr_eq, l.addr_eq, mul_lt t.slot_size l.index st.index v.size_pos before))
        | inr past ↦ inr (omega arith)
      ]
    ]
    | no after ↦ elim (dec_lt l.index (st.index + n)) [
      | yes within ↦
          absurd (l.taken (rw (same (omega arith)) (free (l.index - st.index) (omega arith))))
      | no behind ↦ inl (
          omega
            (arith, st.addr_eq, l.addr_eq, mul_le t.slot_size (st.index + n) l.index (omega arith)))
    ]
  ]
    where
      same : st.index ≤ l.index → r.addr ≡ at a t.slot_size (l.index - st.index)
      same le =
          let e : l.index ≡ st.index + (l.index - st.index) = omega arith in
          omega (arith, st.addr_eq, l.addr_eq, ap (λ (k : ℕ). k * t.slot_size) e)

  clear_of : (r : Region) → IsLive t w r → (r.addr < a) ⊎ (a + n * t.slot_size ≤ r.addr)
  clear_of r l = elim (found-Apart r l) [
    | inl behind ↦ inr behind
    | inr before ↦ inl (omega (arith, mul_le t.slot_size 1 r.slots l.some_slots, v.size_pos))
  ]

  next_outside :
      (r : Region)
      → IsLive t w r
      → (a + n * t.slot_size ≤ r.addr) ⊎ (r.addr + r.slots * t.slot_size ≤ a + n * t.slot_size)
  next_outside r l = elim (found-Apart r l) [
    | inl behind ↦ inl behind
    | inr before ↦ inr (omega arith)
  ]

  module _ (w' : Words) (outside : (x : ℕ) → (x < a) ⊎ (a + n * t.slot_size ≤ x) → w' x ≡ w x) where
    -- The regions in use stay so beside the new one.
    found-IsLive :
        (r : Region) → IsLive t w r → IsLive (record t { slot = a + n * t.slot_size }) w' r
    found-IsLive r l = record {
      index = l.index;
      addr_eq = l.addr_eq;
      some_slots = l.some_slots;
      inside = l.inside;
      taken = λ e. l.taken (sym (outside r.addr (clear_of r l)) ∙ e);
      no_start = next_outside r l;
    }

    pub found-All :
        (rs : List Region)
        → All (IsLive t w) rs
        → All (IsLive (record t { slot = a + n * t.slot_size }) w') rs
          × All (Apart t.slot_size (record { addr = a; slots = n })) rs
    found-All [] l = (tt, tt)
    found-All (r ∷ rs) l =
        let (live, apart) = found-All rs l.1 in
        ((found-IsLive r l.0, live), (found-Apart r l.0, apart))

-- The new region itself.
new-IsLive :
    (t : TlsBuffer) (w : Words) (n a : ℕ) (st : Start t n a)
    → 0 < n
    → w a ≢ free_uword
    → IsLive (record t { slot = a + n * t.slot_size }) w (record { addr = a; slots = n })
new-IsLive t w n a st pos taken = record {
  index = st.index;
  addr_eq = st.addr_eq;
  some_slots = pos;
  inside = st.inside;
  taken = taken;
  no_start = inr (omega arith);
}

moved-IsValid :
    (t : TlsBuffer) (n a : ℕ) (st : Start t n a)
    → IsValid t
    → IsValid (record t { slot = a + n * t.slot_size })
moved-IsValid t n a st v = record {
  size_pos = v.size_pos;
  end_eq = v.end_eq;
  next_index = st.index + n;
  slot_eq = omega (arith, st.addr_eq);
}

-- An allocation keeps the invariant, whatever the client writes behind the first word.
pub allocate-Inv :
    (s : System) (a n : ℕ) (t : TlsBuffer) (w : Words)
    → 0 < n
    → alloc_slots s.buf n s.words ≡ ok (a, t)
    → ((x : ℕ) → (x < a) ⊎ (a + n * s.buf.slot_size ≤ x) → w x ≡ s.words x)
    → w a ≢ free_uword
    → Inv s
    → Inv (record { buf = t; words = w; live = record { addr = a; slots = n } ∷ s.live })
allocate-Inv s a n t w pos e outside taken inv =
    let found : Found s.buf s.words n a t = alloc_slots-Found s.buf s.words n a t e in
    let st : Start s.buf n a = rw found.at_start (slot_start-Start s.buf n inv.valid found.few) in
    let free = all_free_lem n a s.buf.slot_size s.words found.frees in
    let (live, apart) =
      found-All s.buf s.words n a inv.valid pos free st w outside s.live inv.live in
    rw found.moved (record {
      valid = moved-IsValid s.buf n a st inv.valid;
      live = (new-IsLive s.buf w n a st pos taken, live);
      apart = (apart, inv.apart);
    })

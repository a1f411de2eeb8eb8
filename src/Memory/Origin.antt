-- ===== src/Memory/Origin.antt =====
-- src/malc/memory.c: which source `memory_alloc` takes a block from, and which one `memory_dealloc` gives it to.
use mathlib.Core.Path.{subst}
use mini_async_log_c.Common.{
  ℕ, ◌%◌, ◌^◌, ◌≡◌, refl, Bool, true, false, Option, none, some, List, ltb, Result, ok, err, BlErr,
  alloc, range, if◌then◌else◌, ◌≢◌,
}
use mini_async_log_c.Common.BaseLibrary.{IntegerMath}
use mini_async_log_c.TlsBuffer.{TlsBuffer, mul_u32, tls_alloc, dealloc}
use mini_async_log_c.Memory.Bounded.{Mpmc, CpuData, boundedb_alloc, boundedb_dealloc}
use mini_async_log_c.Memory.Sources.{
  AllocTag, free, tls, bounded, heap, Allocation, Memory, alloc_heap, after_bounded, alloc_shared,
  memory_alloc, memory_dealloc,
}

module _ (im : IntegerMath) (q : Mpmc) where
  -- What is done to the memory for a block: the words at the slots of a thread's buffer are set free, or the
  -- bounded queue that has the address gets its slots back, or the allocator is given the address.
  abbrev pub GivenBack : AllocTag → ℕ → ℕ → Memory q → Memory q × Option ℕ → Type 0
  GivenBack free mem slots m r = ⊥
  GivenBack tls mem slots m r =
      r ≡ (record m { words = dealloc mem slots m.cfg.slot_size m.words }, none)
  GivenBack bounded mem slots m r =
      r ≡ (record m { queues = boundedb_dealloc q m.queues mem slots }, none)
  GivenBack heap mem slots m r = r ≡ (m, some mem)

  module _ (m : Memory q) (current : ℕ) (bl_alloc : ℕ → Option ℕ) (n_bytes max_n_slots : ℕ) where
    -- The source of the block: the thread's buffer, a bounded queue, or the allocator.
    abbrev pub CameFrom : AllocTag → ℕ → ℕ → Memory q → Type 0
    CameFrom free mem slots m' = ⊥
    CameFrom tls mem slots m' =
        (t : TlsBuffer) × (tls_alloc m.thread slots m.words ≡ ok (mem, t)) × (m'.thread ≡ some t)
    CameFrom bounded mem slots m' =
        (boundedb_alloc q m.queues current m.cpu n_bytes max_n_slots).0
        ≡ some (m'.queues, ok (mem, slots))
    CameFrom heap mem slots m' = bl_alloc (mul_u32 slots m.cfg.slot_size) ≡ some mem

    abbrev HasSource : Memory q → Allocation → Type 0
    HasSource m' a = CameFrom a.tag a.mem a.slots m'

    abbrev SourcedBy : Memory q → Result Allocation → Type 0
    SourcedBy m' (ok a) = HasSource m' a
    SourcedBy m' (err e) = Unit

    abbrev Sourced : Option (Memory q × Result Allocation) → Type 0
    Sourced none = Unit
    Sourced (some (m', r)) = SourcedBy m' r

    if-SourcedBy :
        (m' : Memory q) (b : Bool) (x y : Result Allocation)
        → SourcedBy m' x
        → SourcedBy m' y
        → SourcedBy m' (if b then x else y)
    if-SourcedBy m' true x y h k = h
    if-SourcedBy m' false x y h k = k

    if-Sourced :
        (b : Bool) (x y : Option (Memory q × Result Allocation))
        → Sourced x
        → Sourced y
        → Sourced (if b then x else y)
    if-Sourced true x y h k = h
    if-Sourced false x y h k = k

    alloc_heap-SourcedBy :
        (m' : Memory q) (e : BlErr)
        → SourcedBy m' (alloc_heap im q m bl_alloc n_bytes max_n_slots e)
    unfolding alloc_heap
    alloc_heap-SourcedBy m' e =
        if-SourcedBy m' m.cfg.msg_allocator _ (err e)
          (if-SourcedBy m' (ltb max_n_slots slots) (err range) _ tt
            (at (bl_alloc (mul_u32 slots m.cfg.slot_size)) refl))
          tt
      where
        slots : ℕ
        slots = im.div_ceil n_bytes m.cfg.slot_size % 2 ^ 32

        at :
            (o : Option ℕ)
            → bl_alloc (mul_u32 slots m.cfg.slot_size) ≡ o
            → SourcedBy m' (elim o [
              | none ↦ err alloc
              | some a ↦ ok (record { mem = a; tag = heap; slots = slots })
            ])
        at none h = tt
        at (some a) h = h

    alloc_shared-Sourced :
        (e : BlErr) → Sourced (alloc_shared im q m current bl_alloc n_bytes max_n_slots e)
    unfolding alloc_shared after_bounded
    alloc_shared-Sourced e =
        if-Sourced (ltb 0 m.cfg.fixed_allocator_bytes) _ _
          (at (boundedb_alloc q m.queues current m.cpu n_bytes max_n_slots).0 refl)
          (alloc_heap-SourcedBy m e)
      where
        cpu : CpuData
        cpu = (boundedb_alloc q m.queues current m.cpu n_bytes max_n_slots).1

        at :
            (o : Option (List q.Queue × Result (ℕ × ℕ)))
            → (boundedb_alloc q m.queues current m.cpu n_bytes max_n_slots).0 ≡ o
            → Sourced (elim o [
              | none ↦ none
              | some (qs, r) ↦ some (
                record m { queues = qs; cpu = cpu },
                after_bounded im q m bl_alloc n_bytes max_n_slots r,
              )
            ])
        at none h = tt
        at (some (qs, ok (a, slots))) h = h
        at (some (qs, err x)) h = alloc_heap-SourcedBy (record m { queues = qs; cpu = cpu }) x

    memory_alloc-Sourced : Sourced (memory_alloc im q m current bl_alloc n_bytes max_n_slots)
    unfolding memory_alloc
    memory_alloc-Sourced =
        if-Sourced (ltb max_n_slots slots) _ _ tt (at (tls_alloc m.thread slots m.words) refl)
      where
        slots : ℕ
        slots = im.div_ceil n_bytes m.cfg.slot_size % 2 ^ 32

        at :
            (r : Result (ℕ × TlsBuffer))
            → tls_alloc m.thread slots m.words ≡ r
            → Sourced (elim r [
              | ok (a, t) ↦
                  some (
                    record m { thread = some t },
                    ok (record { mem = a; tag = tls; slots = slots }),
                  )
              | err e ↦ alloc_shared im q m current bl_alloc n_bytes max_n_slots e
            ])
        at (ok (a, t)) h = (t, h, refl)
        at (err e) h = alloc_shared-Sourced e

    -- A block that `memory_alloc` gives comes from the source that its tag says.
    pub memory_alloc-CameFrom :
        (m' : Memory q) (a : Allocation)
        → memory_alloc im q m current bl_alloc n_bytes max_n_slots ≡ some (m', ok a)
        → CameFrom a.tag a.mem a.slots m'
    memory_alloc-CameFrom m' a eq = subst Sourced eq memory_alloc-Sourced

  -- A block with a source is given back by its tag.
  pub memory_dealloc-GivenBack :
      (m : Memory q) (a : Allocation)
      → a.tag ≢ free
      → GivenBack a.tag a.mem a.slots m (memory_dealloc im q m a)
  unfolding memory_dealloc
  memory_dealloc-GivenBack m a some_tag = at a.tag some_tag
    where
      at :
          (t : AllocTag)
          → t ≢ free
          → GivenBack t a.mem a.slots m
              (memory_dealloc im q m (record { mem = a.mem; tag = t; slots = a.slots }))
      at free h = absurd (h refl)
      at tls h = refl
      at bounded h = refl
      at heap h = refl

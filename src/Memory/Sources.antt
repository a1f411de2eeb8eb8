-- ===== src/Memory/Sources.antt =====
-- src/malc/memory.c: an entry's memory comes from the thread's buffer, else from the bounded
-- queues, else from the allocator of messages.
use mini_async_log_c.Common.{
  ℕ, ◌*◌, ◌%◌, ◌^◌, ◌≤◌, Bool, true, false, Option, none, some, List, if◌then◌else◌, ltb, Result,
  ok, err, BlErr, alloc, range, locked, would_overflow,
}
use mini_async_log_c.Common.BaseLibrary.{IntegerMath}
use mini_async_log_c.TlsBuffer.{Words, TlsBuffer, mul_u32, tls_alloc, init, dealloc}
use mini_async_log_c.Memory.Bounded.{Mpmc, CpuData, reset, boundedb_alloc, boundedb_dealloc}

-- `malc_alloc_cfg`; `msg_allocator` says whether there is one.
pub record AllocCfg : Type 0 where
  pub msg_allocator : Bool
  pub slot_size : ℕ
  pub fixed_allocator_bytes : ℕ
  pub fixed_allocator_max_slots : ℕ
  pub fixed_allocator_per_cpu : Bool

-- What `memory_init` sets.
unfoldable pub default_cfg : AllocCfg
default_cfg = record {
  msg_allocator = true;
  slot_size = 64;
  fixed_allocator_bytes = 0;
  fixed_allocator_max_slots = 0;
  fixed_allocator_per_cpu = false;
}

-- `alloc_tags`
pub data AllocTag : Type 0 where
  free tls bounded heap : AllocTag

-- An entry's memory: where it is, whose it is, and its slots.
pub record Allocation : Type 0 where
  pub mem : ℕ
  pub tag : AllocTag
  pub slots : ℕ

-- `struct memory` as one producer thread sees it: the configuration, its own buffer with the words
-- at the slots, the queues and the thread's processor.
pub record Memory (q : Mpmc) : Type 0 where
  pub cfg : AllocCfg
  pub thread : Option TlsBuffer
  pub words : Words
  pub queues : List q.Queue
  pub cpu : CpuData

-- `memory_tls_init_unregistered`, where the thread's variable says whether it has a buffer already.
-- `bl_alloc` is the allocator and `tss_set` whether `bl_tss_set` succeeds.
unfoldable pub tls_init_unregistered :
    IntegerMath
    → AllocCfg
    → Bool
    → ℕ
    → (ℕ → Option ℕ)
    → Result (Unit {0})
    → Words
    → Result (TlsBuffer × Words)
tls_init_unregistered im cfg has_buffer bytes bl_alloc tss_set w =
    if has_buffer
    then err locked
    else let slots = im.div_ceil bytes cfg.slot_size in
      if ltb slots (2 ^ 32)
      then (elim (init bl_alloc cfg.slot_size slots true w) [
        | err e ↦ err e
        | ok made ↦ elim tss_set [ err e ↦ err e | ok u ↦ ok made ]
      ])
      else err would_overflow

-- The slots hold the bytes that were asked for, and are no more than allowed.
abbrev pub HasRoom : ℕ → ℕ → ℕ → Allocation → Type 0
HasRoom size n_bytes max_n_slots a = (n_bytes ≤ a.slots * size) × (a.slots ≤ max_n_slots)

module _ (im : IntegerMath) (q : Mpmc) where
  -- `memory_bounded_buffer_init`
  unfoldable pub bounded_buffer_init : (ℕ → Bool) → Memory q → Memory q × Result (Unit {0})
  bounded_buffer_init has_room m =
      let (qs, r) =
        reset q im has_room m.cfg.fixed_allocator_bytes m.cfg.slot_size
          m.cfg.fixed_allocator_max_slots m.cfg.fixed_allocator_per_cpu m.queues in
      (record m { queues = qs }, r)

  -- The third source: `msg_allocator` with `bl_alloc`, which is asked for whole slots.
  unfoldable pub alloc_heap : Memory q → (ℕ → Option ℕ) → ℕ → ℕ → BlErr → Result Allocation
  alloc_heap m bl_alloc n_bytes max_n_slots e =
      if m.cfg.msg_allocator
      then (let slots = im.div_ceil n_bytes m.cfg.slot_size % 2 ^ 32 in
          if ltb max_n_slots slots
          then err range
          else elim (bl_alloc (mul_u32 slots m.cfg.slot_size)) [
            | none ↦ err alloc
            | some a ↦ ok (record { mem = a; tag = heap; slots = slots })
          ])
      else err e

  -- What follows `boundedb_alloc`.
  unfoldable pub after_bounded :
      Memory q → (ℕ → Option ℕ) → ℕ → ℕ → Result (ℕ × ℕ) → Result Allocation
  after_bounded m bl_alloc n_bytes max_n_slots (ok (a, slots)) =
      ok (record { mem = a; tag = bounded; slots = slots })
  after_bounded m bl_alloc n_bytes max_n_slots (err e) = alloc_heap m bl_alloc n_bytes max_n_slots e

  -- What follows a `tls_buffer_alloc` that failed. `none` is the fault of `boundedb_alloc`.
  unfoldable pub alloc_shared :
      Memory q → ℕ → (ℕ → Option ℕ) → ℕ → ℕ → BlErr → Option (Memory q × Result Allocation)
  unfolding after_bounded alloc_heap
  alloc_shared m current bl_alloc n_bytes max_n_slots e =
      if ltb 0 m.cfg.fixed_allocator_bytes
      then (let (outcome, cpu) = boundedb_alloc q m.queues current m.cpu n_bytes max_n_slots in
          elim outcome [
            | none ↦ none
            | some (qs, r) ↦ some (
              record m { queues = qs; cpu = cpu },
              after_bounded m bl_alloc n_bytes max_n_slots r,
            )
          ])
      else some (m, alloc_heap m bl_alloc n_bytes max_n_slots e)

  -- `memory_alloc`
  unfoldable pub memory_alloc :
      Memory q → ℕ → (ℕ → Option ℕ) → ℕ → ℕ → Option (Memory q × Result Allocation)
  unfolding alloc_shared
  memory_alloc m current bl_alloc n_bytes max_n_slots =
      let slots = im.div_ceil n_bytes m.cfg.slot_size % 2 ^ 32 in
      if ltb max_n_slots slots
      then some (m, err range)
      else elim (tls_alloc m.thread slots m.words) [
        | ok (a, t) ↦
            some (record m { thread = some t }, ok (record { mem = a; tag = tls; slots = slots }))
        | err e ↦ alloc_shared m current bl_alloc n_bytes max_n_slots e
      ]

  -- `memory_dealloc`: the memory, and the address handed to the allocator of messages.
  unfoldable pub memory_dealloc : Memory q → Allocation → Memory q × Option ℕ
  memory_dealloc m a = elim a.tag [
    | tls ↦ (record m { words = dealloc a.mem a.slots m.cfg.slot_size m.words }, none)
    | bounded ↦ (record m { queues = boundedb_dealloc q m.queues a.mem a.slots }, none)
    | heap ↦ (m, some a.mem)
    | free ↦ (m, none)
  ]

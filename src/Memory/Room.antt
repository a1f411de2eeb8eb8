-- ===== src/Memory/Room.antt =====
-- src/malc/memory.c: the block that `memory_alloc` gives is large enough, whatever its source.
use mathlib.Core.Option.{some-injective}
use native.Mathlib.Nat.{mod-eq_of_lt}
use mini_async_log_c.Common.{
  Bool-cases, inl, inr, ℕ, ◌*◌, ◌%◌, ◌^◌, ◌≤◌, ◌<◌, ◌≡◌, ◌≢◌, refl, Option, none, some, List, ltb,
  Result, ok, err, BlErr, arith,
}
use mini_async_log_c.Common.BaseLibrary.{IntegerMath}
use mini_async_log_c.TlsBuffer.{TlsBuffer, tls_alloc}
use mini_async_log_c.Memory.Bounded.{Mpmc, CpuData, nth, choose_queue, alloc_from, boundedb_alloc}
use mini_async_log_c.Memory.Sources.{
  Allocation, Memory, HasRoom, alloc_heap, after_bounded, alloc_shared, memory_alloc, tls,
}

module _ (im : IntegerMath) (q : Mpmc) where
  module _ (m : Memory q) (current : ℕ) (bl_alloc : ℕ → Option ℕ) (n_bytes max_n_slots : ℕ) where
    slots_enough :
        m.cfg.slot_size ≢ 0
        → im.div_ceil n_bytes m.cfg.slot_size < 2 ^ 32
        → n_bytes ≤ im.div_ceil n_bytes m.cfg.slot_size % 2 ^ 32 * m.cfg.slot_size
    slots_enough h lt = rw (mod-eq_of_lt lt) (im.le-div_ceil n_bytes m.cfg.slot_size h)

    alloc_from_lem :
        (qs qs' : List q.Queue) (i : ℕ) (x : q.Queue) (a slots : ℕ)
        → alloc_from q qs i x n_bytes max_n_slots ≡ (qs', ok (a, slots))
        → (slots ≡ q.required_slots x n_bytes) × (slots ≤ max_n_slots)
    unfolding alloc_from
    alloc_from_lem qs qs' i x a slots e = ground arith

    module _ (hold : (x : q.Queue) → n_bytes ≤ q.required_slots x n_bytes * m.cfg.slot_size) where
      bounded_lem :
          (o : Option q.Queue) (i : ℕ) (qs qs' : List q.Queue) (a slots : ℕ)
          → (elim o [ none ↦ none | some x ↦ some (alloc_from q qs i x n_bytes max_n_slots) ])
            ≡ some (qs', ok (a, slots))
          → (n_bytes ≤ slots * m.cfg.slot_size) × (slots ≤ max_n_slots)
      bounded_lem none i qs qs' a slots e = cc
      bounded_lem (some x) i qs qs' a slots e =
          let (same, few) = alloc_from_lem qs qs' i x a slots (some-injective _ _ e) in
          (rw same (hold x), few)

      heap_lem :
          (e : BlErr) (a : Allocation)
          → m.cfg.slot_size ≢ 0
          → im.div_ceil n_bytes m.cfg.slot_size < 2 ^ 32
          → alloc_heap im q m bl_alloc n_bytes max_n_slots e ≡ ok a
          → HasRoom m.cfg.slot_size n_bytes max_n_slots a
      unfolding alloc_heap
      heap_lem e a h lt eq = ground (arith, slots_enough h lt)

      outcome_lem :
          (o : Option (List q.Queue × Result (ℕ × ℕ))) (cpu : CpuData) (e : BlErr) (m' : Memory q)
          (a : Allocation)
          → m.cfg.slot_size ≢ 0
          → im.div_ceil n_bytes m.cfg.slot_size < 2 ^ 32
          → ((qs' : List q.Queue) (b slots : ℕ)
              → o ≡ some (qs', ok (b, slots))
              → (n_bytes ≤ slots * m.cfg.slot_size) × (slots ≤ max_n_slots))
          → ◌≡◌ {A = Option (Memory q × Result Allocation)}
              (elim o [
                | none ↦ none
                | some (qs, r) ↦ some (
                  record m { queues = qs; cpu = cpu },
                  after_bounded im q m bl_alloc n_bytes max_n_slots r,
                )
              ])
              (some (m', ok a))
          → HasRoom m.cfg.slot_size n_bytes max_n_slots a
      unfolding after_bounded
      outcome_lem none cpu e m' a h lt f eq = cc
      outcome_lem (some (qs, ok (b, slots))) cpu e m' a h lt f eq =
          let bounds = f qs b slots refl in ground arith
      outcome_lem (some (qs, err x)) cpu e m' a h lt f eq = heap_lem x a h lt (cc)

      shared_lem :
          (e : BlErr) (m' : Memory q) (a : Allocation)
          → m.cfg.slot_size ≢ 0
          → im.div_ceil n_bytes m.cfg.slot_size < 2 ^ 32
          → alloc_shared im q m current bl_alloc n_bytes max_n_slots e ≡ some (m', ok a)
          → HasRoom m.cfg.slot_size n_bytes max_n_slots a
      unfolding alloc_shared boundedb_alloc
      shared_lem e m' a h lt eq = elim (Bool-cases (ltb 0 m.cfg.fixed_allocator_bytes)) [
        | inl b ↦
            outcome_lem _ (choose_queue q m.queues current m.cpu).1 e m' a h lt
              (λ qs' b slots.
                bounded_lem (nth q m.queues (choose_queue q m.queues current m.cpu).0) _ m.queues
                  qs' b slots)
              (rw b at eq)
        | inr b ↦ heap_lem e a h lt (cc)
      ]

      thread_lem :
          (r : Result (ℕ × TlsBuffer)) (slots : ℕ) (m' : Memory q) (a : Allocation)
          → m.cfg.slot_size ≢ 0
          → im.div_ceil n_bytes m.cfg.slot_size < 2 ^ 32
          → n_bytes ≤ slots * m.cfg.slot_size
          → slots ≤ max_n_slots
          → ◌≡◌ {A = Option (Memory q × Result Allocation)}
              (elim r [
                | ok (b, t) ↦ some (
                  record m { thread = some t },
                  ok (record { mem = b; tag = tls; slots = slots }),
                )
                | err e ↦ alloc_shared im q m current bl_alloc n_bytes max_n_slots e
              ])
              (some (m', ok a))
          → HasRoom m.cfg.slot_size n_bytes max_n_slots a
      thread_lem (ok (b, t)) slots m' a h lt enough few eq = ground arith
      thread_lem (err e) slots m' a h lt enough few eq = shared_lem e m' a h lt eq

      -- A block that `memory_alloc` gives holds the bytes that were asked for in no more slots than
      -- allowed, whichever source it came from, where a slot has at least a byte, the slots of the
      -- bytes are below 2^32 and the slots that a bounded queue counts for the bytes hold them.
      pub memory_alloc-HasRoom :
          (m' : Memory q) (a : Allocation)
          → m.cfg.slot_size ≢ 0
          → im.div_ceil n_bytes m.cfg.slot_size < 2 ^ 32
          → memory_alloc im q m current bl_alloc n_bytes max_n_slots ≡ some (m', ok a)
          → HasRoom m.cfg.slot_size n_bytes max_n_slots a
      unfolding memory_alloc
      memory_alloc-HasRoom m' a h lt eq =
          elim (Bool-cases (ltb max_n_slots (im.div_ceil n_bytes m.cfg.slot_size % 2 ^ 32))) [
            | inl b ↦ absurd (cc)
            | inr b ↦
                thread_lem (tls_alloc m.thread _ m.words) _ m' a h lt (slots_enough h lt)
                  (ground arith) (rw b at eq)
          ]

-- ===== src/Memory/Bounded.antt =====
-- src/malc/bounded_buffer.c: one bounded queue of slots, or one for each processor. The queue is
-- the base library's `bl_mpmc_bpm`, hence an interface.
use mini_async_log_c.Common.{
  ℕ, zero, suc, ◌+◌, ◌%◌, ◌^◌, ◌≡◌, ◌≢◌, refl, Bool, Option, none, some, List, [], ◌∷◌, ◌++◌,
  if◌then◌else◌, ltb, ◌==◌, length, length-append, Result, ok, err, alloc, invalid, range,
  Bool-cases, inl, inr, ==_ne, arith,
}
use mini_async_log_c.Common.BaseLibrary.{IntegerMath}

-- `bl_mpmc_bpm_*`, and the processors of the machine.
pub record Mpmc : Type 1 where
  pub Queue : Type 0
  pub init : ℕ → ℕ → ℕ → Result Queue
  pub required_slots : Queue → ℕ → ℕ
  pub alloc_slots : Queue → ℕ → Option ℕ × Queue
  pub dealloc_slots : Queue → ℕ → ℕ → Queue
  pub in_range : Queue → ℕ → Bool
  pub cpu_count : ℕ

-- `b_cpu_data`, two `u16`.
pub record CpuData : Type 0 where
  pub cpu : ℕ
  pub calls : ℕ

module _ (q : Mpmc) where
  open q use {Queue, required_slots, alloc_slots, dealloc_slots, in_range, cpu_count}

  -- The loop of `boundedb_reset`, with `left` rounds to go: `cpuq_grow` asks `has_room`. A failure
  -- destroys all the queues, and nothing is left.
  unfoldable pub grow_queues :
      (ℕ → Bool) → ℕ → ℕ → ℕ → ℕ → List Queue → List Queue × Result (Unit {0})
  grow_queues has_room zero slot_count max_slots slot_size qs = (qs, ok tt)
  grow_queues has_room (suc left) slot_count max_slots slot_size qs =
      if has_room (length qs)
      then (elim (q.init slot_count max_slots slot_size) [
        | ok x ↦ grow_queues has_room left slot_count max_slots slot_size (qs ++ (x ∷ []))
        | err e ↦ ([], err e)
      ])
      else ([], err alloc)

  -- `boundedb_reset`
  unfoldable pub reset :
      IntegerMath → (ℕ → Bool) → ℕ → ℕ → ℕ → Bool → List Queue → List Queue × Result (Unit {0})
  unfolding grow_queues
  reset im has_room bytes slot_size max_slots per_cpu qs =
      let slot_count = im.div_ceil bytes slot_size in
      if slot_count == 0
      then ([], ok tt)
      else if max_slots == 0
      then (qs, err invalid)
      else grow_queues has_room (if per_cpu then cpu_count else 1) slot_count max_slots slot_size []

  -- A read and a write of the array of queues; an index out of range is a fault.
  unfoldable pub nth : List Queue → ℕ → Option Queue
  nth [] i = none
  nth (x ∷ qs) zero = some x
  nth (x ∷ qs) (suc i) = nth qs i

  unfoldable pub replace : List Queue → ℕ → Queue → List Queue
  replace [] i y = []
  replace (x ∷ qs) zero y = y ∷ qs
  replace (x ∷ qs) (suc i) y = x ∷ replace qs i y

  -- The processor's queue; its number is asked for at every 64th call.
  unfoldable pub choose_queue : List Queue → ℕ → CpuData → ℕ × CpuData
  choose_queue qs current d =
      if ltb 1 (length qs)
      then (let cpu = if d.calls % 64 == 0 then current % 2 ^ 16 else d.cpu in
          (cpu, record { cpu = cpu; calls = (d.calls + 1) % 2 ^ 16 }))
      else (0, d)

  unfoldable pub alloc_from : List Queue → ℕ → Queue → ℕ → ℕ → List Queue × Result (ℕ × ℕ)
  alloc_from qs i x n_bytes max_n_slots =
      let slots = required_slots x n_bytes in
      if ltb max_n_slots slots
      then (qs, err range)
      else let (got, x') = alloc_slots x slots in
        (replace qs i x', elim got [ none ↦ err alloc | some mem ↦ ok (mem, slots) ])

  -- `boundedb_alloc`; `current` is `bl_get_cpu`. `none` is a fault: no queue with that index.
  unfoldable pub boundedb_alloc :
      List Queue → ℕ → CpuData → ℕ → ℕ → Option (List Queue × Result (ℕ × ℕ)) × CpuData
  unfolding nth choose_queue alloc_from
  boundedb_alloc qs current d n_bytes max_n_slots =
      let (i, d') = choose_queue qs current d in
      (elim (nth qs i) [ none ↦ none | some x ↦ some (alloc_from qs i x n_bytes max_n_slots) ], d')

  -- `boundedb_dealloc`: the first queue that the address belongs to.
  unfoldable pub boundedb_dealloc : List Queue → ℕ → ℕ → List Queue
  boundedb_dealloc [] mem slots = []
  boundedb_dealloc (x ∷ qs) mem slots =
      if in_range x mem then dealloc_slots x mem slots ∷ qs else x ∷ boundedb_dealloc qs mem slots

  -- Success with `n` queues, or failure with none left.
  abbrev pub Settled : ℕ → List Queue × Result (Unit {0}) → Type 0
  Settled n (qs, ok u) = length qs ≡ n
  Settled n (qs, err e) = qs ≡ []

  Settled-grow_queues :
      (has_room : ℕ → Bool) (left c m s : ℕ) (qs : List Queue) (n : ℕ)
      → n ≡ length qs + left
      → Settled n (grow_queues has_room left c m s qs)
  unfolding grow_queues
  Settled-grow_queues has_room zero c m s qs n e = omega arith
  Settled-grow_queues has_room (suc left) c m s qs n e = elim (Bool-cases (has_room (length qs))) [
    | inl room ↦ rw room (
        grown (q.init c m s) (λ x.
          Settled-grow_queues has_room left c m s (qs ++ (x ∷ [])) n
            (omega (arith, length-append qs (x ∷ [])))))
    | inr full ↦ rw full refl
  ]
    where
      grown :
          (r : Result Queue)
          → ((x : Queue) → Settled n (grow_queues has_room left c m s (qs ++ (x ∷ []))))
          → Settled n (elim r [
            | ok x ↦ grow_queues has_room left c m s (qs ++ (x ∷ []))
            | err e ↦ ([], err e)
          ])
      grown (ok x) h = h x
      grown (err e) h = refl

  -- Asked for memory, with slots for an allocation, `boundedb_reset` succeeds with one queue, or one
  -- for each processor, or it fails and leaves none, whatever was there before.
  pub reset-Settled :
      (im : IntegerMath) (has_room : ℕ → Bool) (bytes slot_size max_slots : ℕ) (per_cpu : Bool)
      (qs : List Queue)
      → im.div_ceil bytes slot_size ≢ 0
      → max_slots ≢ 0
      → Settled
          (if per_cpu then cpu_count else 1)
          (reset im has_room bytes slot_size max_slots per_cpu qs)
  unfolding reset
  reset-Settled im has_room bytes slot_size max_slots per_cpu qs h1 h2 =
      rw (==_ne h1, ==_ne h2)
        (Settled-grow_queues has_room (if per_cpu then cpu_count else 1)
          (im.div_ceil bytes slot_size) max_slots slot_size [] _ (omega arith))

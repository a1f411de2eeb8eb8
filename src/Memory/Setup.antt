-- ===== src/Memory/Setup.antt =====
-- src/malc/memory.c: the memory of a logger from `memory_init` to `memory_destroy`, and the destructor of
-- the calling thread's buffer.
use mathlib.Core.Path.{subst}
use mini_async_log_c.Common.{
  ℕ, ◌%◌, ◌^◌, ◌≤◌, ◌≡◌, refl, Bool, true, false, ◌&&◌, Option, none, some, List, [], ltb, Result,
  ok, err, arith,
}
use mini_async_log_c.Common.BaseLibrary.{IntegerMath}
use mini_async_log_c.TlsBuffer.{Words, tls_alloc, out_of_scope_destroy, mul_u32}
use mini_async_log_c.Memory.Bounded.{Mpmc, CpuData}
use mini_async_log_c.Memory.Sources.{
  Memory, heap, default_cfg, alloc_shared, alloc_heap, memory_alloc,
}

-- `memory_tls_try_run_destructor`, with the thread's variable as an address: the variable afterwards, and
-- whether the destructor runs.
unfoldable pub tls_try_run_destructor : Option ℕ → Bool → Option ℕ × Bool
unfolding out_of_scope_destroy
tls_try_run_destructor thread has_dtor = out_of_scope_destroy thread thread has_dtor

abbrev pub is_some : Option ℕ → Bool
is_some none = false
is_some (some a) = true

-- The thread has no buffer afterwards, and the destructor has run where there is a buffer that has one; to call
-- it again does nothing.
pub tls_try_run_destructor-once :
    (thread : Option ℕ) (has_dtor again : Bool)
    → (tls_try_run_destructor thread has_dtor ≡ (none, is_some thread && has_dtor))
      × (tls_try_run_destructor (tls_try_run_destructor thread has_dtor).0 again ≡ (none, false))
unfolding tls_try_run_destructor out_of_scope_destroy
tls_try_run_destructor-once none has_dtor again = (refl, refl)
tls_try_run_destructor-once (some a) has_dtor again = ground arith

module _ (q : Mpmc) where
  abbrev initial : Words → CpuData → Memory q
  initial words cpu = record {
    cfg = default_cfg;
    thread = none;
    words = words;
    queues = [];
    cpu = cpu;
  }

  -- `memory_init`, from what `bl_tss_init` returns: the memory and the list of the threads' buffers. The
  -- words at the slots and the processor of the thread are what they were.
  unfoldable pub memory_init : Result (Unit {0}) → Words → CpuData → Result (Memory q × List ℕ)
  memory_init (err e) words cpu = err e
  memory_init (ok u) words cpu = ok (initial words cpu, [])

  -- `memory_destroy`: the queues and the list are freed, and what is registered in it is not.
  unfoldable pub memory_destroy : Memory q × List ℕ → Memory q × List ℕ
  memory_destroy (m, tls) = (record m { queues = [] }, [])

  module _ (im : IntegerMath) (current : ℕ) (bl_alloc : ℕ → Option ℕ) (n_bytes max_n_slots : ℕ)
      (address : ℕ) where
    abbrev slots : ℕ
    slots = im.div_ceil n_bytes 64 % 2 ^ 32

    abbrev IsFromHeap : Memory q → Type 0
    IsFromHeap m =
        memory_alloc im q m current bl_alloc n_bytes max_n_slots
        ≡ some (m, ok (record { mem = address; tag = heap; slots = slots }))

    initial-IsFromHeap :
        (words : Words) (cpu : CpuData)
        → ltb max_n_slots slots ≡ false
        → bl_alloc (mul_u32 slots 64) ≡ some address
        → IsFromHeap (initial words cpu)
    unfolding memory_alloc alloc_shared alloc_heap tls_alloc default_cfg
    initial-IsFromHeap words cpu few given = rw (few, given) refl

    -- The memory that `memory_init` makes gives an entry what the allocator gives for its slots: there is no
    -- other source, and no queue is asked for.
    pub memory_init-IsFromHeap :
        (tss : Result (Unit {0})) (words : Words) (cpu : CpuData) (m : Memory q) (tls : List ℕ)
        → memory_init tss words cpu ≡ ok (m, tls)
        → im.div_ceil n_bytes 64 % 2 ^ 32 ≤ max_n_slots
        → bl_alloc (mul_u32 (im.div_ceil n_bytes 64 % 2 ^ 32) 64) ≡ some address
        → IsFromHeap m
    unfolding memory_init
    memory_init-IsFromHeap (err e) words cpu m tls made few given = absurd (cc made)
    memory_init-IsFromHeap (ok u) words cpu m tls made few given =
        let same : initial words cpu ≡ m = cc in
        subst IsFromHeap same (initial-IsFromHeap words cpu (ground arith) given)

-- ===== src/Tests/Memory.antt =====
-- Allocations of src/malc/tls_buffer.c, src/malc/bounded_buffer.c and src/malc/memory.c.
use mini_async_log_c.Common.{
  ◌+◌, ◌^◌, ◌<◌, ◌≡◌, refl, true, false, none, some, [], ◌∷◌, ok, arith, All, ◌==◌, if◌then◌else◌,
}
use mini_async_log_c.TlsBuffer.{
  Words, TlsBuffer, init, init_size, alloc_slots, tls_alloc, dealloc, free_slots, all_free,
}
use mini_async_log_c.TlsBuffer.Exclusive.{System, Step, allocate, initial, advance, AllApart}
use mini_async_log_c.TlsBuffer.Reachable.{fresh, InChunk, Reach-exclusive, init_overflow}
use mini_async_log_c.Memory.TssList.{fill_null, tls_register}
use mini_async_log_c.Memory.Sources.{
  Memory, Allocation, memory_alloc, alloc_shared, alloc_heap, heap,
}
use mini_async_log_c.Tests.Library.{integer_math, mpmc}

-- Two slots of 64 bytes in a chunk at 1000.
abbrev buffer : TlsBuffer
buffer = record {
  destructor_fn = true;
  mem = 1088;
  mem_end = 1216;
  slot = 1088;
  slot_count = 2;
  slot_size = 64;
}

abbrev blank : Words
blank = λ a. 0

abbrev freed : Words
freed = dealloc 1088 2 64 blank

abbrev written : Words
written = λ a. if a == 1088 then 5 else freed a

made : init (λ n. some 1000) 64 2 true blank ≡ ok (buffer, freed)
unfolding init
made = refl

allocated : alloc_slots buffer 1 freed ≡ ok (1088, record buffer { slot = 1152 })
unfolding alloc_slots dealloc free_slots all_free
allocated = refl

abbrev one_live : System
one_live = record {
  buf = record buffer { slot = 1152 };
  words = written;
  live = record { addr = 1088; slots = 1 } ∷ [];
}

first-Step : Step (fresh buffer freed) one_live
first-Step = allocate (omega arith) allocated (λ x out. ground arith) (λ e. ground arith)

Reach-exclusive_example :
    AllApart 64 (record { addr = 1088; slots = 1 } ∷ [])
    × All (InChunk 1000 64 2) (record { addr = 1088; slots = 1 } ∷ [])
Reach-exclusive_example =
    Reach-exclusive (λ n. some 1000) 1000 64 2 true blank freed buffer one_live (omega arith)
      (omega arith) refl made (advance initial first-Step)

abbrev huge : TlsBuffer
huge = record {
  destructor_fn = true;
  mem = 1088;
  mem_end = 1088 + 2 ^ 32;
  slot = 1088;
  slot_count = 2 ^ 26;
  slot_size = 64;
}

huge_made : init (λ n. some 1000) 64 (2 ^ 26) true blank ≡ ok (huge, dealloc 1088 (2 ^ 26) 64 blank)
unfolding init
huge_made = refl

init_overflow_example : 1000 + init_size 64 (2 ^ 26) < 1088 + 2 ^ 32
init_overflow_example =
    init_overflow (λ n. some 1000) 1000 64 (2 ^ 26) true blank (dealloc 1088 (2 ^ 26) 64 blank) huge
      (omega arith) (omega arith) (omega arith) refl huge_made

abbrev memory : Memory mpmc
memory = record {
  cfg = record {
    msg_allocator = true;
    slot_size = 64;
    fixed_allocator_bytes = 0;
    fixed_allocator_max_slots = 0;
    fixed_allocator_per_cpu = false;
  };
  thread = none;
  words = blank;
  queues = [];
  cpu = record { cpu = 0; calls = 0 };
}

abbrev block : Allocation
block = record { mem = 5000; tag = heap; slots = 2 }

from_heap :
    memory_alloc integer_math mpmc memory 0 (λ n. some 5000) 100 256 ≡ some (memory, ok block)
unfolding memory_alloc alloc_shared alloc_heap tls_alloc
from_heap = refl

registered : (tls_register true 3 (5 ∷ 0 ∷ 3 ∷ [])).1 ≡ ok tt
unfolding tls_register fill_null
registered = refl

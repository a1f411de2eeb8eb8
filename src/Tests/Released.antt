-- ===== src/Tests/Released.antt =====
-- An entry in heap memory that the consumer gives back to the allocator: src/malc/malc.c.
use mini_async_log_c.Common.{ℕ, ◌≡◌, Option, some, [], ◌∷◌, true, false, ok, arith}
use mini_async_log_c.Serial.Encode.{payload_size}
use mini_async_log_c.Memory.Sources.{Allocation, Memory, memory_alloc}
use mini_async_log_c.Memory.Origin.{CameFrom, GivenBack}
use mini_async_log_c.Logger.{running, max_n_slots, node_size}
use mini_async_log_c.Logger.Consumer.{release, message}
use mini_async_log_c.Logger.Consumer.Released.{log_entry_prepare-released, node_with}
use mini_async_log_c.Tests.Library.{integer_math, mpmc, ringb}
use mini_async_log_c.Tests.EntryParser.{plain_out, no_tables}
use mini_async_log_c.Tests.Logger.{build, memory, entry, values, outcome, size_eq, succeeded}
use mini_async_log_c.Tests.Delivered.{calling, called_logger}
use mini_async_log_c.Destinations.Types.{PastEntry}

log_entry_prepare-released_example :
    (a : Allocation) × (memory_alloc integer_math mpmc memory 0
        (λ n. some 5000)
        (node_size build integer_math mpmc 16 entry 16384 true 300
          (payload_size build integer_math values))
        max_n_slots
      ≡ some (memory, ok a))
    × CameFrom integer_math mpmc memory 0
        (λ n. some 5000)
        (node_size build integer_math mpmc 16 entry 16384 true 300
          (payload_size build integer_math values))
        max_n_slots
        a.tag
        a.mem
        a.slots
        memory
    × (back : Memory mpmc × Option ℕ) × GivenBack integer_math mpmc a.tag a.mem a.slots memory back
    × (release build integer_math mpmc
          (ringb PastEntry)
          plain_out
          no_tables
          calling
          (node_with outcome (1 ∷ []))
          (called_logger, [])
        ≡ record {
          logger = record called_logger { mem = back.0 };
          effects =
              message build integer_math mpmc (ringb PastEntry) plain_out no_tables calling back.1;
          stops = false;
        })
log_entry_prepare-released_example =
    log_entry_prepare-released build integer_math mpmc (ringb PastEntry) plain_out no_tables calling
      16 (omega arith) entry 16384 true 300 (payload_size build integer_math values) running memory
      memory 0 (λ n. some 5000) outcome (1 ∷ []) called_logger [] (λ e. omega arith)
      (omega (arith, size_eq)) (rw size_eq (omega arith)) (λ x. rw size_eq (omega arith)) succeeded

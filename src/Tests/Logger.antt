-- ===== src/Tests/Logger.antt =====
-- An entry that is prepared in heap memory: src/malc/malc.c.
use mini_async_log_c.Common.{
  ℕ, ◌+◌, ◌≤◌, ◌≡◌, refl, true, false, none, some, List, [], ◌∷◌, length, ok, arith, map,
}
use mini_async_log_c.Serial.Values.{Build, ConstEntry, Value, u32, i64, strcp, type_code}
use mini_async_log_c.Serial.Compress.{get_compressed_u, get_compressed_i}
use mini_async_log_c.Serial.Encode.{
  image, serialize_all, payload_size, type_size, transform, compress, serializer_init,
  init_compressed, log_entry_size, prepare_external,
}
use mini_async_log_c.TlsBuffer.{tls_alloc}
use mini_async_log_c.Memory.Sources.{Memory, heap, memory_alloc, alloc_shared, alloc_heap}
use mini_async_log_c.Logger.{
  running, cmd_entry, Prepared, entry_node, node_size, prepared, log_entry_prepare, is_running,
}
use mini_async_log_c.Logger.Prepare.{log_entry_prepare-Inside}
use mini_async_log_c.Tests.Library.{integer_math, mpmc, log2}

abbrev pub build : Build
build = record { compression = true; ptr_bytes = 8 }

abbrev pub values : List Value
values = u32 70000 ∷ i64 5 ∷ strcp (104 ∷ 105 ∷ []) ∷ []

abbrev pub entry : ConstEntry
entry = record { format = []; severity = 54; types = map type_code values; compressed_count = 2 }

abbrev pub memory : Memory mpmc
memory = record {
  cfg = record {
    msg_allocator = true;
    slot_size = 64;
    fixed_allocator_bytes = 0;
    fixed_allocator_max_slots = 0;
    fixed_allocator_per_cpu = false;
  };
  thread = none;
  words = λ a. 0;
  queues = [];
  cpu = record { cpu = 0; calls = 0 };
}

abbrev pub outcome : Prepared
outcome = record {
  mem = 5000;
  node = record { has_timestamp = true; cmd = cmd_entry; tag = heap; slots = 0 };
  ext_ser =
      prepare_external build integer_math (serializer_init build integer_math entry 16384 true 300);
}

abbrev pub size : ℕ
size =
    node_size build integer_math mpmc 16 entry 16384 true 300
      (payload_size build integer_math values)

pub size_eq : size ≡ 37
unfolding node_size log_entry_size serializer_init init_compressed get_compressed_u get_compressed_i
    payload_size transform compress type_size log2
size_eq = refl

pub succeeded :
    log_entry_prepare build integer_math mpmc 16 running memory 0
      (λ n. some 5000)
      entry
      16384
      true
      300
      (payload_size build integer_math values)
    ≡ some (memory, ok outcome)
unfolding log_entry_prepare is_running prepared entry_node memory_alloc alloc_shared alloc_heap
    tls_alloc node_size log_entry_size serializer_init init_compressed get_compressed_u
    get_compressed_i payload_size transform compress type_size log2
succeeded = refl

log_entry_prepare-Inside_example :
    16 + length (image (serialize_all build integer_math outcome.ext_ser values)) ≤ 64
log_entry_prepare-Inside_example =
    log_entry_prepare-Inside build integer_math mpmc 16 (omega arith) entry 16384 true 300 values
      running memory memory 0 (λ n. some 5000) outcome (λ e. omega arith) (omega (arith, size_eq))
      (rw size_eq (omega arith)) (λ x. rw size_eq (omega arith)) succeeded

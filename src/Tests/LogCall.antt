-- ===== src/Tests/LogCall.antt =====
-- Calls of the log macros on which the theorems about them are run.
use mini_async_log_c.Common.{
  ◌%◌, ◌^◌, ◌&&◌, ◌==◌, not, ◌≡◌, ◌≢◌, refl, true, false, none, some, [], ◌∷◌, ◌++◌, ok, arith, map,
}
use mini_async_log_c.Serial.Encode.{
  type_size, transform, compress, serializer_init, init_compressed, log_entry_size,
  prepare_external,
}
use mini_async_log_c.Serial.Wire.{total_compress_count, compress_count}
use mini_async_log_c.Serial.Compress.{get_compressed_u, get_compressed_i}
use mini_async_log_c.TlsBuffer.{tls_alloc}
use mini_async_log_c.Memory.Sources.{heap, memory_alloc, alloc_shared, alloc_heap}
use mini_async_log_c.Destinations.Types.{PastEntry, is_valid_severity}
use mini_async_log_c.EntryParser.Entry.{refdtor_call}
use mini_async_log_c.Validation.{success, success_with_refs, code, get_code, validate_references}
use mini_async_log_c.EntryParser.Text.Render
use mini_async_log_c.EntryParser.Text.Render.{Format, IsFormat}
use mini_async_log_c.Logger.Consumer.{consume_entry}
use mini_async_log_c.Validation.Printed.{printed}
use mini_async_log_c.Validation.Delivered.{paired, handed}
use mini_async_log_c.Logger.{
  running, cmd_entry, Prepared, entry_node, node_size, prepared, log_entry_prepare, is_running,
}
use mini_async_log_c.LogCall.{
  create_const_entry, get_cleanup_count, get_ref_count, last_is_cleanup, validate_ref_and_cleanup,
  fill_ref_array, ref_array_dealloc, deallocate_in_place, Called, log_if_private,
}
use mini_async_log_c.LogCall.Cpp.{
  count_compressed, msgdata, get_payload_size, serialize_values, finish, log, log_if,
}
use mini_async_log_c.LogCall.Delivered.{node_of, log_if-delivers}
use mini_async_log_c.LogCall.Strip.{
  Defined, define_severity, strip_log_severity, is_stripped, is_stripped-reaches,
}
use mini_async_log_c.LogCall.Validated.{validate_references-agrees}
use mini_async_log_c.LogCall.Agree.{log_if-agrees}
use mini_async_log_c.LogCall.Once.{log_if_private-frees_once}
use mini_async_log_c.Tests.Library.{integer_math, mpmc, log2, ringb}
use mini_async_log_c.Tests.Logger.{build, memory}
use mini_async_log_c.Tests.EntryParser.{plain_out, no_tables, parser}
use mini_async_log_c.Tests.Validation.{call_types, call_format}
use mini_async_log_c.Tests.Delivered.{call_values, calling, called_logger, compiles}

-- A build that defines `MALC_STRIP_LOG_NOTICE`.
abbrev strip_notice : Defined
strip_notice = record {
  strip_log = false ∷ false ∷ true ∷ false ∷ false ∷ false ∷ [];
  strip_all = false;
  strip_log_severity = none;
}

strip_notice-severity : strip_log_severity strip_notice ≡ some (some 2)
unfolding strip_log_severity define_severity
strip_notice-severity = refl

is_stripped-reaches_example : is_stripped strip_notice (some 2) 3 ≡ false
is_stripped-reaches_example =
    is_stripped-reaches strip_notice (some 2) strip_notice-severity 2 refl 3

validate_references-agrees_example :
    ((get_code (validate_references call_types) == code success)
      ≡ (validate_ref_and_cleanup call_values && get_ref_count call_values == 0))
    × ((get_code (validate_references call_types) == code success_with_refs)
        ≡ (validate_ref_and_cleanup call_values && not (get_ref_count call_values == 0)))
validate_references-agrees_example =
    validate_references-agrees call_types call_values (refl, (refl, (refl, tt)))

log_if-agrees_example :
    log_if build integer_math mpmc 16 true 54 53 call_format call_types 16384 running memory 0
      (λ n. some 5000)
      true
      300
      call_values
    ≡ log_if_private build integer_math mpmc 16 true 54 53 call_format 16384 running memory 0
        (λ n. some 5000)
        true
        300
        call_values
log_if-agrees_example =
    log_if-agrees build integer_math mpmc 16 true 54 53 call_format call_types 16384 running memory
      0 (λ n. some 5000) true 300 (code success_with_refs) call_values (omega arith) compiles
      (refl, (refl, (refl, tt))) (tt, (tt, ((λ e. omega arith), tt)))

-- A call that is filtered out, which runs the destructor itself.
abbrev filtered : Called mpmc
filtered = record {
  mem = memory;
  committed = none;
  result = ok tt;
  freed = refdtor_call 8192 9 (record { ref = 4096; size = 2 } ∷ []) ∷ [];
}

is_filtered :
    log_if_private build integer_math mpmc 16 true 54 56 call_format 16384 running memory 0
      (λ n. some 5000)
      true
      300
      call_values
    ≡ some filtered
unfolding log_if_private deallocate_in_place get_ref_count fill_ref_array ref_array_dealloc
is_filtered = refl

call_asserted : validate_ref_and_cleanup call_values ≡ true
unfolding validate_ref_and_cleanup get_cleanup_count get_ref_count last_is_cleanup
call_asserted = refl

call_constants :
    calling.env.static.const_entry 16384 ≡ create_const_entry build 54 call_format call_values
unfolding create_const_entry total_compress_count compress_count
call_constants = refl

call_msgdata : calling.env.static.const_entry 16384 ≡ msgdata build 54 call_format call_types
unfolding msgdata count_compressed total_compress_count compress_count
call_msgdata = refl

is_warning : is_valid_severity (54 % 2 ^ 8) ≡ true
unfolding is_valid_severity
is_warning = refl

log_if_private-frees_once_example :
    filtered.freed ++ [] ≡ refdtor_call 8192 9 (record { ref = 4096; size = 2 } ∷ []) ∷ []
log_if_private-frees_once_example =
    log_if_private-frees_once plain_out no_tables build integer_math mpmc 16 calling.env (λ n. refl)
      true 54 56 call_format 16384 running memory 0 (λ n. some 5000) true 300 call_values filtered
      called_logger.ds parser (7 ∷ []) [] call_asserted (tt, (tt, ((λ e. omega arith), tt)))
      (omega arith, ((omega arith, omega arith), ((omega arith, omega arith), tt))) (omega arith)
      (omega arith) (λ e. omega arith) (omega arith) is_warning call_constants is_filtered refl

-- A call that commits its entry, in heap memory.
abbrev committed_entry : Prepared
committed_entry = record {
  mem = 5000;
  node = record { has_timestamp = true; cmd = cmd_entry; tag = heap; slots = 0 };
  ext_ser =
      serialize_values build
        (prepare_external build integer_math (
          serializer_init build integer_math (msgdata build 54 call_format call_types) 16384 true
            300))
        (map (transform build integer_math) call_values);
}

abbrev logged : Called mpmc
logged = record { mem = memory; committed = some committed_entry; result = ok tt; freed = [] }

is_logged :
    log_if build integer_math mpmc 16 true 54 53 call_format call_types 16384 running memory 0
      (λ n. some 5000)
      true
      300
      call_values
    ≡ some logged
unfolding log_if log finish log_entry_prepare is_running prepared entry_node memory_alloc
    alloc_shared alloc_heap tls_alloc node_size log_entry_size serializer_init init_compressed
    get_compressed_u get_compressed_i get_payload_size transform compress type_size log2 msgdata
    count_compressed compress_count
is_logged = refl

log_if-delivers_example :
    (consume_entry build integer_math mpmc
        (ringb PastEntry)
        plain_out
        no_tables
        calling
        (node_of committed_entry (7 ∷ []))
        called_logger
      ≢ none)
    × (f : Format) × IsFormat f
    × (Render.written f ≡ call_format)
    × (consume_entry build integer_math mpmc
          (ringb PastEntry)
          plain_out
          no_tables
          calling
          (node_of committed_entry (7 ∷ []))
          called_logger
        ≡ handed integer_math mpmc
            (ringb PastEntry)
            plain_out
            no_tables
            calling
            build
            (node_of committed_entry (7 ∷ []))
            called_logger
            16384
            300
            call_values
            (printed plain_out no_tables f
              (paired integer_math mpmc
                (ringb PastEntry)
                plain_out
                no_tables
                calling
                build
                16384
                call_values)
              (record parser { str = [] })))
log_if-delivers_example =
    log_if-delivers integer_math mpmc (ringb PastEntry) plain_out no_tables calling build 16
      (λ n. refl) true 54 53 call_types call_format 16384 running memory 0 (λ n. some 5000) true 300
      (code success_with_refs) call_values logged committed_entry (7 ∷ []) called_logger
      (omega arith) compiles (refl, (refl, (refl, tt))) (tt, (tt, ((λ e. omega arith), tt)))
      (omega arith, ((omega arith, omega arith), ((omega arith, omega arith), tt))) (omega arith)
      (λ e. omega arith) (omega arith) is_warning call_msgdata is_logged refl

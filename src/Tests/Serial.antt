-- ===== src/Tests/Serial.antt =====
-- Entries that are serialized and read back: include/malc/impl/serialization.h and
-- src/malc/serialization.c.
use mini_async_log_c.Common.{
  ◌+◌, ◌-◌, ◌^◌, ◌≡◌, refl, true, List, [], ◌∷◌, ◌++◌, map, length, ok, arith, All,
}
use mini_async_log_c.Serial.Values.{
  Build, ConstEntry, Value, u32, i64, strcp, strref, refdtor, type_code, Fits,
}
use mini_async_log_c.Serial.Encode.{image, log_entry_size, serializer_init, payload_size}
use mini_async_log_c.Serial.Wire.{
  total_compress_count, compress_count, args_of, refs_of, refdtor_of,
}
use mini_async_log_c.Serial.Deserialize.{Deserializer, Env, no_refdtor, execute}
use mini_async_log_c.Serial.RoundTrip.Entry.{written, execute-written, log_entry_size_exact}
use mini_async_log_c.Tests.Library.{integer_math}

abbrev build : Build
build = record { compression = true; ptr_bytes = 8 }

abbrev values : List Value
values = u32 70000 ∷ i64 (2 ^ 64 - 3) ∷ strcp (104 ∷ 105 ∷ []) ∷ strref 4096 5 ∷ refdtor 8192 9 ∷ []

abbrev entry : ConstEntry
entry = record { format = []; severity = 54; types = map type_code values; compressed_count = 2 }

abbrev env : Env
env = record {
  static = record { const_entry = λ p. entry; obj_sizeof = λ p. 0 };
  now = 77;
  to_nsec = λ t. t + 1;
  has_room = λ n. true;
}

abbrev cleared : Deserializer
cleared = record { args = []; refs = []; refdtor = no_refdtor; entry = 0; t = 0 }

values_fit : All (Fits build) values
values_fit = (
  omega arith,
  (
    omega arith,
    (
      (omega arith, (omega arith, (omega arith, tt))),
      ((omega arith, omega arith), ((omega arith, omega arith), tt)),
    ),
  ),
)

counted : 2 ≡ total_compress_count build (map type_code values)
unfolding total_compress_count compress_count
counted = refl

execute-written_example :
    execute build integer_math env
      (image (written build integer_math entry 16384 true 300 values) ++ (7 ∷ []))
      true
      cleared
    ≡ ok (record {
      args = args_of values;
      refs = refs_of values;
      refdtor = refdtor_of no_refdtor values;
      entry = 16384;
      t = 301;
    })
execute-written_example =
    execute-written integer_math env (λ n. refl) build 16384 true 300 values (7 ∷ []) cleared
      values_fit (omega arith) (omega arith) refl counted

log_entry_size_exact_example :
    length (image (written build integer_math entry 16384 true 300 values)) + 1
    ≡ log_entry_size build integer_math
        (serializer_init build integer_math entry 16384 true 300)
        (payload_size build integer_math values)
log_entry_size_exact_example = log_entry_size_exact integer_math build entry 16384 true 300 values

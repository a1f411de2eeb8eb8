-- ===== src/Tests/StdTypes.antt =====
-- Runs of the hooks of src/malcpp/c++_std_types.cpp.
use native.Mathlib.Nat.{pow-suc}
use mini_async_log_c.Common.{
  ℕ, zero, suc, ◌^◌, ◌/◌, ◌<◌, ◌≤◌, ◌≡◌, refl, ap, true, false, ltb, Option, none, some, List, [],
  ◌∷◌, ◌++◌, if◌then◌else◌, ◌==◌, ok, arith,
}
use mini_async_log_c.Serial.Values.{StaticData, LogArgument, type_obj_flag}
use mini_async_log_c.Serial.Encode.{Serializer, put_bytes}
use mini_async_log_c.Serial.Decode.{push, decode_arg}
use mini_async_log_c.Serial.Decode.Laws.{cursor}
use mini_async_log_c.Validation.LoggedTypes.{uint16}
use mini_async_log_c.EntryParser.Args.{append_arg}
use mini_async_log_c.Wrapper.Objects.{fill_serializable, do_serialize}
use mini_async_log_c.Wrapper.StdTypes.Logged.{vector_object}
use mini_async_log_c.Wrapper.StdTypes.Called.{vector_object-printed}
use mini_async_log_c.Tests.Library.{log2}
use mini_async_log_c.Tests.Logger.{build}
use mini_async_log_c.EntryParser.Types.{lit, Printing}
use mini_async_log_c.EntryParser.Objects.{ObjTables}
use mini_async_log_c.Wrapper.StdTypes.{Elements, null_smart_ptr, vector_smartptr_get_data}
use mini_async_log_c.Tests.EntryParser.{plain_out, parser}

-- A memory whose literals are told apart by their lengths.
abbrev literals_out : Printing
literals_out = record plain_out {
  bytes_at = λ p n. if n == 1 then lit "]" else if n == 7 then null_smart_ptr else lit "u16[";
}

-- The first byte of a smart pointer tells whether it is null.
abbrev pointed : List ℕ → Option Elements
pointed [] = none
pointed (b ∷ rest) = if b == 0 then none else some (record { start = 4096; size = 300 })

abbrev vector_tables : ObjTables
vector_tables = record {
  getdata = λ t. some (vector_smartptr_get_data (λ t. 64) (λ e. 1) pointed);
  has_destroy = λ t. true;
}

-- The base 2 logarithm that the type of a vector's elements takes.
some_power : (n : ℕ) → 0 < 2 ^ n
some_power zero = omega arith
some_power (suc n) = omega (arith, pow-suc 2 n, some_power n)

log2_power : (k n : ℕ) → n ≤ k → log2 k (2 ^ n) ≡ n
unfolding log2
log2_power zero zero h = refl
log2_power zero (suc n) h = absurd (omega (arith, h))
log2_power (suc k) zero h = refl
log2_power (suc k) (suc n) h = rw (big, half) (ap suc (log2_power k n (omega (arith, h))))
  where
    half : 2 ^ suc n / 2 ≡ 2 ^ n
    half = omega (arith, pow-suc 2 n)

    big : ltb (2 ^ suc n) 2 ≡ false
    big = ground (arith, pow-suc 2 n, some_power n)

abbrev pointer_sizes : StaticData
pointer_sizes = record {
  const_entry = λ p. record { format = []; severity = 54; types = []; compressed_count = 0 };
  obj_sizeof = λ t. 2;
}

abbrev nothing_written : Serializer
nothing_written = record {
  before = [];
  compressed_header = [];
  compressed_header_idx = 0;
  field_mem = [];
}

vector_object-printed_example :
    (written : List ℕ) × (do_serialize build nothing_written
        (fill_serializable 99 (vector_object (log2 63) uint16 700 (1 ∷ 0 ∷ [])))
      ≡ put_bytes nothing_written written)
    × (arg : LogArgument) × (decode_arg build pointer_sizes type_obj_flag
          (cursor [] 0 (written ++ (7 ∷ [])))
        ≡ ok (push arg, cursor [] 0 (7 ∷ [])))
    × (append_arg literals_out vector_tables arg type_obj_flag [] parser
        ≡ some (record parser { str = lit "u16[#]" }, ok tt))
vector_object-printed_example =
    vector_object-printed (log2 63) (λ n h. log2_power 63 n (omega (arith, h))) literals_out
      (λ s t. refl) (λ t. 64) (λ e. 1) (λ e h. omega arith) vector_tables pointed build
      pointer_sizes nothing_written 99 uint16 700 (1 ∷ 0 ∷ []) [] (7 ∷ []) [] 0 parser refl
      (omega arith) refl refl refl refl refl (λ e. refl)

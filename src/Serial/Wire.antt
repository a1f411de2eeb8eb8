-- ===== src/Serial/Wire.antt =====
-- What an entry looks like in memory, read off the values alone: the bytes and nibbles that the
-- serializer of include/malc/impl/serialization.h should write, and what the deserializer of
-- src/malc/serialization.c should hand on.
use mini_async_log_c.Common.{
  ℕ, ◌+◌, ◌*◌, ◌≤◌, ◌<◌, ◌≡◌, refl, ◌∙◌, ◌||◌, List, [], ◌∷◌, ◌++◌, if◌then◌else◌, ◌==◌, length,
  All, arith,
}
use mini_async_log_c.Common.BaseLibrary.{IntegerMath}
use mini_async_log_c.Serial.Values.{
  Build, Value, i8, u8, i16, u16, i32, u32, float, i64, u64, double, ptr, lit, strcp, memcp, strref,
  memref, refdtor, comp32, comp64, type_i32, type_u32, type_i64, type_u64, LogArgument, vu8, vu16,
  vu32, vfloat, vu64, vdouble, vptr, vlit, vstrcp, vstrref, MalcRef, RefDtor,
}
use mini_async_log_c.Serial.Compress.{compressed_get_size, or_nibble, get_nibble, comp_bytes}
use mini_async_log_c.Serial.Compress.Nibbles.{
  Fresh, get_nibble-or_nibble_self, get_nibble-or_nibble_ne, or_nibble-Fresh, length-or_nibble,
}
use mini_async_log_c.Serial.Encode.{Serializer, plain_bytes, serialize, serialize_comp, transform}

-- `malc_total_compress_count` of one type.
unfoldable pub compress_count : Build → ℕ → ℕ
compress_count b ch =
    if b.compression
    then (if ch == type_i32 || ch == type_u32 || ch == type_i64 || ch == type_u64 then 1 else 0)
    else 0

-- The sum that the log macros store as `compressed_count`.
unfoldable pub total_compress_count : Build → List ℕ → ℕ
total_compress_count b [] = 0
total_compress_count b (ch ∷ types) = compress_count b ch + total_compress_count b types

abbrev pub nibbles : Value → List ℕ
nibbles (comp32 c) = c.format_nibble ∷ []
nibbles (comp64 c) = c.format_nibble ∷ []
nibbles v = []

unfoldable pub wire_bytes : Build → Value → List ℕ
wire_bytes b (comp32 c) = comp_bytes (compressed_get_size c.format_nibble) 0 c.v
wire_bytes b (comp64 c) = comp_bytes (compressed_get_size c.format_nibble) 0 c.v
wire_bytes b v = plain_bytes b v

unfoldable pub write_nibbles : List ℕ → ℕ → List ℕ → List ℕ
write_nibbles h i [] = h
write_nibbles h i (n ∷ ns) = write_nibbles (or_nibble h i n) (i + 1) ns

-- `h` holds the nibbles from position `i` on.
abbrev pub Reads : List ℕ → ℕ → List ℕ → Type 0
Reads h i [] = Unit
Reads h i (n ∷ ns) = (get_nibble h i ≡ n) × Reads h (i + 1) ns

abbrev pub AreNibbles : List ℕ → Type 0
AreNibbles = All (λ n. n < 16)

pub length-write_nibbles :
    (h : List ℕ) (i : ℕ) (ns : List ℕ) → length (write_nibbles h i ns) ≡ length h
unfolding write_nibbles
length-write_nibbles h i [] = refl
length-write_nibbles h i (n ∷ ns) =
    length-write_nibbles (or_nibble h i n) (i + 1) ns ∙ length-or_nibble h i n

write_nibbles_before :
    (h : List ℕ) (i j : ℕ) (ns : List ℕ)
    → Fresh h i
    → AreNibbles ns
    → i + length ns ≤ length h * 2
    → j < i
    → get_nibble (write_nibbles h i ns) j ≡ get_nibble h j
unfolding write_nibbles
write_nibbles_before h i j [] f small room lt = refl
write_nibbles_before h i j (n ∷ ns) f small room lt =
    write_nibbles_before (or_nibble h i n) (i + 1) j ns
      (or_nibble-Fresh h i n f small.0 (omega arith)) small.1
      (omega (arith, length-or_nibble h i n)) (omega arith)
    ∙ get_nibble-or_nibble_ne h i n f small.0 j (λ e. omega arith) (omega arith)

-- A header of bytes with no nibble set from a position on and with room for them holds all the
-- nibbles that are written to it from that position, each below 16.
pub write_nibbles-Reads :
    (h : List ℕ) (i : ℕ) (ns : List ℕ)
    → Fresh h i
    → AreNibbles ns
    → i + length ns ≤ length h * 2
    → Reads (write_nibbles h i ns) i ns
unfolding write_nibbles
write_nibbles-Reads h i [] f small room = tt
write_nibbles-Reads h i (n ∷ ns) f small room =
    let next : Fresh (or_nibble h i n) (i + 1) = or_nibble-Fresh h i n f small.0 (omega arith) in
    let room' : i + 1 + length ns ≤ length (or_nibble h i n) * 2 =
      omega (arith, length-or_nibble h i n) in
    (
      write_nibbles_before (or_nibble h i n) (i + 1) i ns next small.1 room' (omega arith)
          ∙ get_nibble-or_nibble_self h i n f small.0 (omega arith),
      write_nibbles-Reads (or_nibble h i n) (i + 1) ns next small.1 room',
    )

module _ (b : Build) (im : IntegerMath) where
  abbrev pub all_nibbles : List Value → List ℕ
  all_nibbles [] = []
  all_nibbles (v ∷ vs) = nibbles (transform b im v) ++ all_nibbles vs

  abbrev pub all_bytes : List Value → List ℕ
  all_bytes [] = []
  all_bytes (v ∷ vs) = wire_bytes b (transform b im v) ++ all_bytes vs

-- What the deserializer pushes for each value.
abbrev pub args_of : List Value → List LogArgument
args_of [] = []
args_of (i8 v ∷ vs) = vu8 v ∷ args_of vs
args_of (u8 v ∷ vs) = vu8 v ∷ args_of vs
args_of (i16 v ∷ vs) = vu16 v ∷ args_of vs
args_of (u16 v ∷ vs) = vu16 v ∷ args_of vs
args_of (i32 v ∷ vs) = vu32 v ∷ args_of vs
args_of (u32 v ∷ vs) = vu32 v ∷ args_of vs
args_of (float v ∷ vs) = vfloat v ∷ args_of vs
args_of (i64 v ∷ vs) = vu64 v ∷ args_of vs
args_of (u64 v ∷ vs) = vu64 v ∷ args_of vs
args_of (double v ∷ vs) = vdouble v ∷ args_of vs
args_of (ptr v ∷ vs) = vptr v ∷ args_of vs
args_of (lit v ∷ vs) = vlit v ∷ args_of vs
args_of (strcp bs ∷ vs) = vstrcp bs ∷ args_of vs
args_of (memcp bs ∷ vs) = vstrcp bs ∷ args_of vs
args_of (strref p n ∷ vs) = vstrref p n ∷ args_of vs
args_of (memref p n ∷ vs) = vstrref p n ∷ args_of vs
args_of (refdtor f c ∷ vs) = args_of vs
args_of (comp32 c ∷ vs) = args_of vs
args_of (comp64 c ∷ vs) = args_of vs

-- The references to free, and the destructor that is to free them.
abbrev pub refs_of : List Value → List MalcRef
refs_of [] = []
refs_of (strref p n ∷ vs) = record { ref = p; size = n } ∷ refs_of vs
refs_of (memref p n ∷ vs) = record { ref = p; size = n } ∷ refs_of vs
refs_of (_ ∷ vs) = refs_of vs

abbrev pub refdtor_of : RefDtor → List Value → RefDtor
refdtor_of r [] = r
refdtor_of r (refdtor f c ∷ vs) = refdtor_of (record { func = f; context = c }) vs
refdtor_of r (_ ∷ vs) = refdtor_of r vs

module _ (b : Build) where
  -- The serializer appends a value's bytes, and its nibble if it is compressed.
  pub serialize_lem :
      (s : Serializer) (v : Value)
      → serialize b s v ≡ record s {
        compressed_header = write_nibbles s.compressed_header s.compressed_header_idx (nibbles v);
        compressed_header_idx = s.compressed_header_idx + length (nibbles v);
        field_mem = s.field_mem ++ wire_bytes b v;
      }
  unfolding serialize serialize_comp wire_bytes write_nibbles
  serialize_lem s (comp32 c) = refl
  serialize_lem s v = ground arith

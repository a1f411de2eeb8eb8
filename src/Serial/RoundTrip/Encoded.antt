-- ===== src/Serial/RoundTrip/Encoded.antt =====
-- The state of the serializer after all the arguments.
use mini_async_log_c.Common.{
  ℕ, suc, ◌+◌, ◌≡◌, refl, ◌∙◌, List, [], ◌∷◌, ◌++◌, map, append_assoc, append-nil, length,
  length-append, All, arith, Bool-cases, inl, inr,
}
use mini_async_log_c.Common.Bytes.{le_bytes, length-le_bytes}
use mini_async_log_c.Common.BaseLibrary.{IntegerMath}
use mini_async_log_c.Serial.Values.{
  Build, Value, i8, u8, i16, u16, i32, u32, float, i64, u64, double, ptr, lit, strcp, memcp, strref,
  memref, refdtor, comp32, comp64, Fits, type_code,
}
use mini_async_log_c.Serial.Compress.{or_nibble}
use mini_async_log_c.Serial.Compress.Laws.{
  get_compressed_u-Encodes, get_compressed_i-Encodes, comp_bytes-le_bytes,
}
use mini_async_log_c.Serial.Encode.{
  Serializer, serialize, plain_bytes, type_size, compress, transform, payload_size, serialize_all,
}
use mini_async_log_c.Serial.Wire.{
  compress_count, total_compress_count, nibbles, wire_bytes, write_nibbles, AreNibbles, all_nibbles,
  all_bytes, serialize_lem,
}

write_nibbles-append :
    (h : List ℕ) (i : ℕ) (ns ms : List ℕ)
    → write_nibbles (write_nibbles h i ns) (i + length ns) ms ≡ write_nibbles h i (ns ++ ms)
unfolding write_nibbles
write_nibbles-append h i [] ms = let e : i + 0 ≡ i = omega arith in rw e
write_nibbles-append h i (n ∷ ns) ms =
    let e : i + suc (length ns) ≡ i + 1 + length ns = omega arith in
    rw e (write_nibbles-append (or_nibble h i n) (i + 1) ns ms)

module _ (b : Build) (im : IntegerMath) where
  -- All the arguments' bytes and nibbles, in order.
  pub serialize_all_lem :
      (s : Serializer) (vs : List Value)
      → serialize_all b im s vs ≡ record s {
        compressed_header =
            write_nibbles s.compressed_header s.compressed_header_idx (all_nibbles b im vs);
        compressed_header_idx = s.compressed_header_idx + length (all_nibbles b im vs);
        field_mem = s.field_mem ++ all_bytes b im vs;
      }
  unfolding serialize_all write_nibbles
  serialize_all_lem s [] =
      let e : s.compressed_header_idx + 0 ≡ s.compressed_header_idx = omega arith in
      simp (append-nil, e)
  serialize_all_lem s (v ∷ vs) =
      let e : s.compressed_header_idx
            + length (nibbles (transform b im v))
            + length (all_nibbles b im vs)
          ≡ s.compressed_header_idx + length (nibbles (transform b im v) ++ all_nibbles b im vs) =
        omega (arith, length-append (nibbles (transform b im v)) (all_nibbles b im vs)) in
      serialize_all_lem (serialize b s (transform b im v)) vs
      ∙ simp (serialize_lem, write_nibbles-append, append_assoc, e)

  compress-AreNibbles : (v : Value) → Fits b v → AreNibbles (nibbles (compress b im v))
  unfolding compress
  compress-AreNibbles (i32 v) f =
      ((get_compressed_i-Encodes im 4 v (omega arith) (omega arith) f).nibble, tt)
  compress-AreNibbles (u32 v) f =
      ((get_compressed_u-Encodes im 4 v (omega arith) (omega arith) f).nibble, tt)
  compress-AreNibbles (i64 v) f =
      ((get_compressed_i-Encodes im 8 v (omega arith) (omega arith) f).nibble, tt)
  compress-AreNibbles (u64 v) f =
      ((get_compressed_u-Encodes im 8 v (omega arith) (omega arith) f).nibble, tt)
  compress-AreNibbles (comp32 c) f = absurd f
  compress-AreNibbles (comp64 c) f = absurd f
  compress-AreNibbles _ f = tt

  plain-AreNibbles : (v : Value) → Fits b v → AreNibbles (nibbles v)
  plain-AreNibbles (comp32 c) f = absurd f
  plain-AreNibbles (comp64 c) f = absurd f
  plain-AreNibbles _ f = tt

  transform-AreNibbles : (v : Value) → Fits b v → AreNibbles (nibbles (transform b im v))
  unfolding transform
  transform-AreNibbles v f = elim (Bool-cases b.compression) [
    | inl e ↦ rw e (compress-AreNibbles v f)
    | inr e ↦ rw e (plain-AreNibbles v f)
  ]

  All-append : (P : ℕ → Type 0) (xs ys : List ℕ) → All P xs → All P ys → All P (xs ++ ys)
  All-append P [] ys hx hy = hy
  All-append P (x ∷ xs) ys hx hy = (hx.0, All-append P xs ys hx.1 hy)

  pub all_nibbles-AreNibbles :
      (vs : List Value) → All (Fits b) vs → AreNibbles (all_nibbles b im vs)
  all_nibbles-AreNibbles [] f = tt
  all_nibbles-AreNibbles (v ∷ vs) f =
      All-append _ _ _ (transform-AreNibbles v f.0) (all_nibbles-AreNibbles vs f.1)

  length-nibbles :
      (v : Value) → Fits b v → length (nibbles (transform b im v)) ≡ compress_count b (type_code v)
  unfolding transform compress compress_count
  length-nibbles (comp32 c) f = absurd f
  length-nibbles (comp64 c) f = absurd f
  length-nibbles v f = ground arith

  -- The compile-time count of the compressed types is the number of nibbles that are written.
  pub length-all_nibbles :
      (vs : List Value)
      → All (Fits b) vs
      → length (all_nibbles b im vs) ≡ total_compress_count b (map type_code vs)
  unfolding total_compress_count
  length-all_nibbles [] f = refl
  length-all_nibbles (v ∷ vs) f = omega (
    arith,
    length-append (nibbles (transform b im v)) (all_nibbles b im vs),
    length-nibbles v f.0,
    length-all_nibbles vs f.1,
  )

  -- The size that a type announces is the number of its bytes.
  length-wire_bytes : (v : Value) → length (wire_bytes b v) ≡ type_size b v
  unfolding wire_bytes plain_bytes type_size
  length-wire_bytes (i8 v) = refl
  length-wire_bytes (u8 v) = refl
  length-wire_bytes (i16 v) = refl
  length-wire_bytes (u16 v) = refl
  length-wire_bytes (i32 v) = refl
  length-wire_bytes (u32 v) = refl
  length-wire_bytes (float v) = refl
  length-wire_bytes (i64 v) = refl
  length-wire_bytes (u64 v) = refl
  length-wire_bytes (double v) = refl
  length-wire_bytes (ptr v) = length-le_bytes b.ptr_bytes v
  length-wire_bytes (lit v) = length-le_bytes b.ptr_bytes v
  length-wire_bytes (strcp bs) = omega arith
  length-wire_bytes (memcp bs) = omega arith
  length-wire_bytes (strref p n) = omega (arith, length-le_bytes b.ptr_bytes p)
  length-wire_bytes (memref p n) = omega (arith, length-le_bytes b.ptr_bytes p)
  length-wire_bytes (refdtor f c) = omega (
    arith,
    length-append {0} (le_bytes b.ptr_bytes f) (le_bytes b.ptr_bytes c),
    length-le_bytes b.ptr_bytes f,
    length-le_bytes b.ptr_bytes c,
  )
  length-wire_bytes (comp32 c) = rw (comp_bytes-le_bytes) (length-le_bytes _ _)
  length-wire_bytes (comp64 c) = rw (comp_bytes-le_bytes) (length-le_bytes _ _)

  pub length-all_bytes : (vs : List Value) → length (all_bytes b im vs) ≡ payload_size b im vs
  unfolding payload_size
  length-all_bytes [] = refl
  length-all_bytes (v ∷ vs) = omega (
    arith,
    length-append (wire_bytes b (transform b im v)) (all_bytes b im vs),
    length-wire_bytes (transform b im v),
    length-all_bytes vs,
  )

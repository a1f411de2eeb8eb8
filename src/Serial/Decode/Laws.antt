-- ===== src/Serial/Decode/Laws.antt =====
-- Each `decode_*` function reads back what the serializer wrote, and leaves what follows.
use mini_async_log_c.Common.{
  ℕ, ◌+◌, ◌^◌, ◌<◌, ◌≡◌, refl, Bool, true, false, List, [], ◌++◌, append_assoc, length,
  length-append, take-append, drop-append, ok, arith, if◌then◌else◌,
}
use mini_async_log_c.Common.Bytes.{le_bytes, length-le_bytes, of_le_bytes-le_bytes}
use mini_async_log_c.Common.BaseLibrary.{IntegerMath}
use mini_async_log_c.Serial.Values.{
  Build, StaticData, Compressed, Value, i8, u8, i16, u16, i32, u32, float, i64, u64, double, ptr,
  lit, strcp, memcp, strref, memref, refdtor, comp32, comp64, vu8, vu16, vu32, vfloat, vu64,
  vdouble, vptr, vlit, vstrcp, Fits, type_code,
}
use mini_async_log_c.Serial.Compress.{
  compressed_get_size, comp_bytes, get_nibble, get_compressed_u, get_compressed_i,
}
use mini_async_log_c.Serial.Compress.Laws.{
  Encodes, comp_value-comp_bytes, get_compressed_u-Encodes, get_compressed_i-Encodes,
  comp_bytes-le_bytes,
}
use mini_async_log_c.Serial.Encode.{plain_bytes, transform, compress}
use mini_async_log_c.Serial.Wire.{nibbles, wire_bytes, Reads}
use mini_async_log_c.Serial.Decode.{
  Cursor, decode_span, decode_int, decode_compressed_32, decode_compressed_64, decode_strcp,
  Decoded, push, push_ref, set_refdtor, decode_32, decode_64, decode_ptr, decode_strref,
  decode_refdtor, decode_arg,
}

abbrev pub cursor : List ℕ → ℕ → List ℕ → Cursor
cursor h i m = record { hdr = h; idx = i; mem = m }

module _ (h : List ℕ) (i : ℕ) where
  pub decode_span-append :
      (n : ℕ) (bs rest : List ℕ)
      → length bs ≡ n
      → decode_span n (cursor h i (bs ++ rest)) ≡ ok (bs, cursor h i rest)
  decode_span-append n bs rest e =
      ground (arith, length-append bs rest, take-append bs rest n e, drop-append bs rest n e)

  pub decode_int-le_bytes :
      (n v : ℕ) (rest : List ℕ)
      → v < 256 ^ n
      → decode_int n (cursor h i (le_bytes n v ++ rest)) ≡ ok (v, cursor h i rest)
  unfolding decode_int
  decode_int-le_bytes n v rest hv =
      rw (
        decode_span-append n (le_bytes n v) rest (length-le_bytes n v),
        of_le_bytes-le_bytes n v hv,
      )

  length-comp_bytes : (n x : ℕ) → length (comp_bytes n 0 x) ≡ n
  length-comp_bytes n x = rw (comp_bytes-le_bytes n 0 x) (length-le_bytes n _)

  pub decode_compressed_32-comp_bytes :
      (c : Compressed) (v : ℕ) (rest : List ℕ)
      → Encodes 4 c v
      → get_nibble h i ≡ c.format_nibble
      → decode_compressed_32
          (cursor h i (comp_bytes (compressed_get_size c.format_nibble) 0 c.v ++ rest))
        ≡ ok (v, cursor h (i + 1) rest)
  unfolding decode_compressed_32
  decode_compressed_32-comp_bytes c v rest enc e =
      let n : ℕ = compressed_get_size c.format_nibble in
      let bs : List ℕ = comp_bytes n 0 c.v in
      let read = comp_value-comp_bytes 32 n c.v rest enc.bytes enc.fits in
      rw (e, read, enc.value)
        (ground (
          arith,
          enc.size,
          length-append bs rest,
          length-comp_bytes n c.v,
          drop-append bs rest n (length-comp_bytes n c.v),
        ))

  pub decode_compressed_64-comp_bytes :
      (c : Compressed) (v : ℕ) (rest : List ℕ)
      → Encodes 8 c v
      → get_nibble h i ≡ c.format_nibble
      → decode_compressed_64
          (cursor h i (comp_bytes (compressed_get_size c.format_nibble) 0 c.v ++ rest))
        ≡ ok (v, cursor h (i + 1) rest)
  unfolding decode_compressed_64
  decode_compressed_64-comp_bytes c v rest enc e =
      let n : ℕ = compressed_get_size c.format_nibble in
      let bs : List ℕ = comp_bytes n 0 c.v in
      let read = comp_value-comp_bytes 64 n c.v rest enc.bytes enc.fits in
      rw (e, read, enc.value)
        (ground (
          arith,
          length-append bs rest,
          length-comp_bytes n c.v,
          drop-append bs rest n (length-comp_bytes n c.v),
        ))

  pub decode_strcp-bytes :
      (bs rest : List ℕ)
      → length bs < 2 ^ 16
      → decode_strcp (cursor h i ((le_bytes 2 (length bs) ++ bs) ++ rest))
        ≡ ok (bs, cursor h i rest)
  unfolding decode_strcp
  decode_strcp-bytes bs rest lt =
      rw (append_assoc, decode_int-le_bytes 2 (length bs) (bs ++ rest) (omega arith))
        (decode_span-append (length bs) bs rest refl)

  module _ (b : Build) (st : StaticData) where
    pub decode_ptr-le_bytes :
        (v : ℕ) (rest : List ℕ)
        → v < 256 ^ b.ptr_bytes
        → decode_ptr b st (cursor h i (le_bytes b.ptr_bytes v ++ rest)) ≡ ok (v, cursor h i rest)
    unfolding decode_ptr
    decode_ptr-le_bytes v rest hv = decode_int-le_bytes b.ptr_bytes v rest hv

    pub decode_strref-bytes :
        (p n : ℕ) (rest : List ℕ)
        → p < 256 ^ b.ptr_bytes
        → n < 2 ^ 16
        → decode_strref b st (cursor h i ((le_bytes 2 n ++ le_bytes b.ptr_bytes p) ++ rest))
          ≡ ok ((p, n), cursor h i rest)
    unfolding decode_strref
    decode_strref-bytes p n rest hp hn = rw (
      append_assoc,
      decode_int-le_bytes 2 n (le_bytes b.ptr_bytes p ++ rest) (omega arith),
      decode_ptr-le_bytes p rest hp,
    )

    pub decode_refdtor-bytes :
        (f c : ℕ) (rest : List ℕ)
        → f < 256 ^ b.ptr_bytes
        → c < 256 ^ b.ptr_bytes
        → decode_refdtor b st
            (cursor h i ((le_bytes b.ptr_bytes f ++ le_bytes b.ptr_bytes c) ++ rest))
          ≡ ok (record { func = f; context = c }, cursor h i rest)
    unfolding decode_refdtor
    decode_refdtor-bytes f c rest hf hc = rw (
      append_assoc,
      decode_ptr-le_bytes f (le_bytes b.ptr_bytes c ++ rest) hf,
      decode_ptr-le_bytes c rest hc,
    )

-- What is handed on for a value.
abbrev pub decoded : Value → Decoded
decoded (i8 v) = push (vu8 v)
decoded (u8 v) = push (vu8 v)
decoded (i16 v) = push (vu16 v)
decoded (u16 v) = push (vu16 v)
decoded (i32 v) = push (vu32 v)
decoded (u32 v) = push (vu32 v)
decoded (float v) = push (vfloat v)
decoded (i64 v) = push (vu64 v)
decoded (u64 v) = push (vu64 v)
decoded (double v) = push (vdouble v)
decoded (ptr v) = push (vptr v)
decoded (lit v) = push (vlit v)
decoded (strcp bs) = push (vstrcp bs)
decoded (memcp bs) = push (vstrcp bs)
decoded (strref p n) = push_ref p n
decoded (memref p n) = push_ref p n
decoded (refdtor f c) = set_refdtor (record { func = f; context = c })
decoded (comp32 c) = push (vu32 c.v)
decoded (comp64 c) = push (vu64 c.v)

transform_same :
    (b : Build) (im : IntegerMath) (v : Value) → compress b im v ≡ v → transform b im v ≡ v
unfolding transform
transform_same b im v e = ground arith

module _ (b : Build) (im : IntegerMath) (st : StaticData) (h : List ℕ) (i : ℕ) (rest : List ℕ) where
  -- The two branches of `decode_32` and `decode_64`, over the build option as a variable.
  branch_32 :
      (c : Compressed) (y : Value) (v : ℕ) (cmp : Bool)
      → Encodes 4 c v
      → wire_bytes b y ≡ le_bytes 4 v
      → nibbles y ≡ []
      → v < 2 ^ 32
      → let w = if cmp then comp32 c else y in
        let k = cursor h i (wire_bytes b w ++ rest) in
        Reads h i (nibbles w)
        → (if cmp then decode_compressed_32 k else decode_int 4 k)
          ≡ ok (v, cursor h (i + length (nibbles w)) rest)
  unfolding wire_bytes
  branch_32 c y v true enc ew en hv r = decode_compressed_32-comp_bytes h i c v rest enc r.0
  branch_32 c y v false enc ew en hv r =
      let e : i + 0 ≡ i = omega arith in
      rw (en, ew, e) (decode_int-le_bytes h i 4 v rest (omega arith))

  branch_64 :
      (c : Compressed) (y : Value) (v : ℕ) (cmp : Bool)
      → Encodes 8 c v
      → wire_bytes b y ≡ le_bytes 8 v
      → nibbles y ≡ []
      → v < 2 ^ 64
      → let w = if cmp then comp64 c else y in
        let k = cursor h i (wire_bytes b w ++ rest) in
        Reads h i (nibbles w)
        → (if cmp then decode_compressed_64 k else decode_int 8 k)
          ≡ ok (v, cursor h (i + length (nibbles w)) rest)
  unfolding wire_bytes
  branch_64 c y v true enc ew en hv r = decode_compressed_64-comp_bytes h i c v rest enc r.0
  branch_64 c y v false enc ew en hv r =
      let e : i + 0 ≡ i = omega arith in
      rw (en, ew, e) (decode_int-le_bytes h i 8 v rest (omega arith))

  module _ (v : ℕ) where
    abbrev Decodes32 : Value → Type 0
    Decodes32 y =
        Reads h i (nibbles (transform b im y))
        → decode_32 b st (cursor h i (wire_bytes b (transform b im y) ++ rest))
          ≡ ok (v, cursor h (i + length (nibbles (transform b im y))) rest)

    abbrev Decodes64 : Value → Type 0
    Decodes64 y =
        Reads h i (nibbles (transform b im y))
        → decode_64 b st (cursor h i (wire_bytes b (transform b im y) ++ rest))
          ≡ ok (v, cursor h (i + length (nibbles (transform b im y))) rest)

    decode_32-i32 : v < 2 ^ 32 → Decodes32 (i32 v)
    unfolding decode_32 transform compress wire_bytes plain_bytes
    decode_32-i32 hv r =
        branch_32 (get_compressed_i im 32 v) (i32 v) v b.compression
          (get_compressed_i-Encodes im 4 v (omega arith) (omega arith) hv) refl refl hv r

    decode_32-u32 : v < 2 ^ 32 → Decodes32 (u32 v)
    unfolding decode_32 transform compress wire_bytes plain_bytes
    decode_32-u32 hv r =
        branch_32 (get_compressed_u im v) (u32 v) v b.compression
          (get_compressed_u-Encodes im 4 v (omega arith) (omega arith) hv) refl refl hv r

    decode_64-i64 : v < 2 ^ 64 → Decodes64 (i64 v)
    unfolding decode_64 transform compress wire_bytes plain_bytes
    decode_64-i64 hv r =
        branch_64 (get_compressed_i im 64 v) (i64 v) v b.compression
          (get_compressed_i-Encodes im 8 v (omega arith) (omega arith) hv) refl refl hv r

    pub decode_64-u64 : v < 2 ^ 64 → Decodes64 (u64 v)
    unfolding decode_64 transform compress wire_bytes plain_bytes
    decode_64-u64 hv r =
        branch_64 (get_compressed_u im v) (u64 v) v b.compression
          (get_compressed_u-Encodes im 8 v (omega arith) (omega arith) hv) refl refl hv r

  abbrev Decodes : Value → Type 0
  Decodes v =
      Reads h i (nibbles (transform b im v))
      → decode_arg b st (type_code v) (cursor h i (wire_bytes b (transform b im v) ++ rest))
        ≡ ok (decoded v, cursor h (i + length (nibbles (transform b im v))) rest)

  stay : i + 0 ≡ i
  stay = omega arith

  int :
      (n v : ℕ)
      → v < 256 ^ n
      → decode_int n (cursor h i (le_bytes n v ++ rest)) ≡ ok (v, cursor h i rest)
  int n v hv = decode_int-le_bytes h i n v rest hv

  pub decode_arg-wire_bytes : (v : Value) → Fits b v → Decodes v
  unfolding decode_arg compress wire_bytes plain_bytes
  decode_arg-wire_bytes (i8 v) f r = rw (transform_same b im (i8 v) refl, stay, int 1 v f)
  decode_arg-wire_bytes (u8 v) f r = rw (transform_same b im (u8 v) refl, stay, int 1 v f)
  decode_arg-wire_bytes (i16 v) f r =
      rw (transform_same b im (i16 v) refl, stay, int 2 v (omega arith))
  decode_arg-wire_bytes (u16 v) f r =
      rw (transform_same b im (u16 v) refl, stay, int 2 v (omega arith))
  decode_arg-wire_bytes (i32 v) f r = rw (decode_32-i32 v f r)
  decode_arg-wire_bytes (u32 v) f r = rw (decode_32-u32 v f r)
  decode_arg-wire_bytes (float v) f r =
      rw (transform_same b im (float v) refl, stay, int 4 v (omega arith))
  decode_arg-wire_bytes (i64 v) f r = rw (decode_64-i64 v f r)
  decode_arg-wire_bytes (u64 v) f r = rw (decode_64-u64 v f r)
  decode_arg-wire_bytes (double v) f r =
      rw (transform_same b im (double v) refl, stay, int 8 v (omega arith))
  decode_arg-wire_bytes (ptr v) f r =
      rw (transform_same b im (ptr v) refl, stay, decode_ptr-le_bytes h i b st v rest f)
  decode_arg-wire_bytes (lit v) f r =
      rw (transform_same b im (lit v) refl, stay, decode_ptr-le_bytes h i b st v rest f)
  decode_arg-wire_bytes (strcp bs) f r =
      rw (transform_same b im (strcp bs) refl, stay, decode_strcp-bytes h i bs rest f.0)
  decode_arg-wire_bytes (memcp bs) f r =
      rw (transform_same b im (memcp bs) refl, stay, decode_strcp-bytes h i bs rest f.0)
  decode_arg-wire_bytes (strref p n) f r =
      rw
        (transform_same b im (strref p n) refl, stay, decode_strref-bytes h i b st p n rest f.0 f.1)
  decode_arg-wire_bytes (memref p n) f r =
      rw
        (transform_same b im (memref p n) refl, stay, decode_strref-bytes h i b st p n rest f.0 f.1)
  decode_arg-wire_bytes (refdtor p c) f r =
      rw (
        transform_same b im (refdtor p c) refl,
        stay,
        decode_refdtor-bytes h i b st p c rest f.0 f.1,
      )
  decode_arg-wire_bytes (comp32 c) f r = absurd f
  decode_arg-wire_bytes (comp64 c) f r = absurd f

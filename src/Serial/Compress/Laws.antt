-- ===== src/Serial/Compress/Laws.antt =====
-- Compression loses nothing: the bytes and the nibble determine the integer.
use native.Mathlib.Nat.{div-div-eq-div-mul, div-add-mod, mod-eq_of_lt, pow-le-pow_right, pow-suc}
use native.Mathlib.Decide.{dec_lt, ℕ_discrete}
use native.Mathlib.Numerals.{towards_suc}
use mini_async_log_c.Common.{
  ℕ, zero, suc, ◌+◌, ◌-◌, ◌*◌, ◌/◌, ◌%◌, ◌^◌, ◌≤◌, ◌<◌, bit_or, ◌≡◌, ◌≢◌, refl, ap, ◌∙◌, sym, List,
  ◌∷◌, ◌++◌, leb, arith, Bool-cases, inl, inr,
}
use mini_async_log_c.Common.Bytes.{le_bytes}
use mini_async_log_c.Common.Bits.{bit_or_fields}
use mini_async_log_c.Common.BaseLibrary.{IntegerMath}
use mini_async_log_c.Serial.Values.{Compressed}
use mini_async_log_c.Serial.Compress.{
  compressed_get_size, get_compressed_u, get_compressed_i, comp_bytes, comp_value, undo_inverse,
}

pow_byte : (i : ℕ) → 2 ^ ((i + 1) * 8) ≡ 2 ^ (i * 8) * 256
pow_byte i = let e : (i + 1) * 8 ≡ i * 8 + 8 = omega arith in rw e (simp towards_suc (omega arith))

div_byte : (i v : ℕ) → v / 2 ^ ((i + 1) * 8) ≡ v / 2 ^ (i * 8) / 256
div_byte i v = rw pow_byte (sym (div-div-eq-div-mul v (2 ^ (i * 8)) 256))

-- The serializer's loop writes the little-endian bytes.
pub comp_bytes-le_bytes : (n i v : ℕ) → comp_bytes n i v ≡ le_bytes n (v / 2 ^ (i * 8))
unfolding comp_bytes
comp_bytes-le_bytes zero i v = refl
comp_bytes-le_bytes (suc n) i v =
    ap (λ l. (v / 2 ^ (i * 8) % 256) ∷ l) (rw (comp_bytes-le_bytes n (i + 1) v, div_byte i v))

split_byte : (x p : ℕ) → x * p ≡ x % 256 * p + x / 256 * (p * 256)
split_byte x p = omega (arith, ap (λ (t : ℕ). t * p) (div-add-mod x 256))

or_byte :
    (w i x acc : ℕ)
    → acc < 2 ^ (i * 8)
    → x * 2 ^ (i * 8) < 2 ^ w
    → bit_or acc (x % 256 * 2 ^ (i * 8) % 2 ^ w) ≡ acc + x % 256 * 2 ^ (i * 8)
or_byte w i x acc ha hw =
    rw
      (mod-eq_of_lt {n = x % 256 * 2 ^ (i * 8)} {m = 2 ^ w}
        (omega (arith, split_byte x (2 ^ (i * 8)))))
      (bit_or_fields (i * 8) acc (x % 256) ha)

-- The decoder's loop adds up the bytes above what it has already read.
comp_value-le_bytes :
    (w n i x acc : ℕ) (rest : List ℕ)
    → acc < 2 ^ (i * 8)
    → x < 256 ^ n
    → x * 2 ^ (i * 8) < 2 ^ w
    → comp_value w n i (le_bytes n x ++ rest) acc ≡ acc + x * 2 ^ (i * 8)
unfolding comp_value
comp_value-le_bytes w zero i x acc rest ha hx hw = let e : x ≡ 0 = omega arith in rw e (omega arith)
comp_value-le_bytes w (suc n) i x acc rest ha hx hw = rw (or_byte w i x acc ha hw) (
    comp_value-le_bytes w n (i + 1) (x / 256) (acc + x % 256 * 2 ^ (i * 8)) rest
      (omega (arith, pow_byte i, room)) (omega (arith, pow-suc 256 n))
      (omega (arith, next, split_byte x (2 ^ (i * 8))))
    ∙ omega (arith, next, split_byte x (2 ^ (i * 8))))
  where
    room : x % 256 * 2 ^ (i * 8) ≤ 255 * 2 ^ (i * 8)
    room = grind arith

    next : x / 256 * 2 ^ ((i + 1) * 8) ≡ x / 256 * (2 ^ (i * 8) * 256)
    next = ap (λ (t : ℕ). x / 256 * t) (pow_byte i)

-- The decoder's loop, at `w` bits, reads back the integer whose `n` lowest bytes the serializer's loop
-- wrote, whatever follows them, if it is below 256 ^ n and 2 ^ w.
pub comp_value-comp_bytes :
    (w n x : ℕ) (rest : List ℕ)
    → x < 256 ^ n
    → x < 2 ^ w
    → comp_value w n 0 (comp_bytes n 0 x ++ rest) 0 ≡ x
comp_value-comp_bytes w n x rest hx hw =
    let e : x / 2 ^ (0 * 8) ≡ x = omega arith in
    rw (comp_bytes-le_bytes, e)
      (comp_value-le_bytes w n 0 x 0 rest (omega arith) hx (omega arith) ∙ omega arith)

pow_256 : (n : ℕ) → 256 ^ n ≡ 2 ^ (n * 8)
pow_256 zero = refl
pow_256 (suc n) =
    let e : suc n * 8 ≡ (n + 1) * 8 = omega arith in
    rw e (omega (arith, pow-suc 256 n, pow_byte n, pow_256 n))

-- `c` is a compressed form, in at most `width` bytes, of the integer with the bit pattern `v`.
pub record Encodes (width : ℕ) (c : Compressed) (v : ℕ) : Type 0 where
  pub nibble : c.format_nibble < 16
  pub size : compressed_get_size c.format_nibble ≤ width
  pub bytes : c.v < 256 ^ compressed_get_size c.format_nibble
  pub fits : c.v < 2 ^ (width * 8)
  pub value : undo_inverse (width * 8) (c.format_nibble / 8) c.v ≡ v

two_pow_mono : {i j : ℕ} → i ≤ j → 2 ^ i ≤ 2 ^ j
two_pow_mono h = pow-le-pow_right {n = 2} (omega arith) h

module _ (im : IntegerMath) where
  log2_floor_lt : (k v : ℕ) → v ≢ 0 → v < 2 ^ k → k ≤ 64 → im.log2_floor v < k
  log2_floor_lt k v ne h hk = elim (dec_lt (im.log2_floor v) k) [
    | yes p ↦ p
    | no p ↦ absurd (
        omega (
          arith,
          im.le-log2_floor v ne (omega (arith, two_pow_mono hk)),
          two_pow_mono {i = k} {j = im.log2_floor v} (omega arith),
        ))
  ]

  size_of_log2 :
      (width v : ℕ)
      → v ≢ 0
      → width ≤ 8
      → v < 2 ^ (width * 8)
      → let n = im.log2_floor v / 8 in (n < width) × (v < 256 ^ suc n)
  size_of_log2 width v ne h8 hv = (
    omega (arith, log2_floor_lt (width * 8) v ne hv (omega arith)),
    rw (pow_256 (suc (im.log2_floor v / 8))) (
        omega (
          arith,
          im.lt-log2_floor v ne
              (omega (arith, two_pow_mono {i = width * 8} {j = 64} (omega arith))),
          two_pow_mono {i = suc (im.log2_floor v)} {j = suc (im.log2_floor v / 8) * 8}
              (omega arith),
        )),
  )

  get_compressed_u_size :
      (width v : ℕ)
      → 1 ≤ width
      → width ≤ 8
      → v < 2 ^ (width * 8)
      → let n = (get_compressed_u im v).format_nibble in (n < width) × (v < 256 ^ suc n)
  unfolding get_compressed_u
  get_compressed_u_size width v h1 h8 hv = elim (ℕ_discrete v 0) [
    | yes e ↦ ground arith
    | no ne ↦ ground (arith, size_of_log2 width v ne h8 hv)
  ]

  -- `malc_get_compressed_u32` and `malc_get_compressed_u64`: for an integer of `width` bytes, one
  -- to eight, the nibble is below 16, asks for at most `width` bytes, and those hold the integer.
  pub get_compressed_u-Encodes :
      (width v : ℕ)
      → 1 ≤ width
      → width ≤ 8
      → v < 2 ^ (width * 8)
      → Encodes width (get_compressed_u im v) v
  unfolding get_compressed_u
  get_compressed_u-Encodes width v h1 h8 hv =
      let (lt, fit) = get_compressed_u_size width v h1 h8 hv in
      let n : ℕ = (get_compressed_u im v).format_nibble in
      let small : n % 8 + 1 ≡ suc n = omega arith in
      let none_set : n / 8 ≡ 0 = omega arith in
      record {
        nibble = omega arith;
        size = omega arith;
        bytes = rw small fit;
        fits = hv;
        value = rw none_set refl;
      }

  -- `malc_get_compressed_i32` and `malc_get_compressed_i64`: for the bit pattern of an integer of
  -- `width` bytes, one to eight, the nibble is below 16, asks for at most `width` bytes, and those
  -- hold the pattern, inverted where the nibble's top bit says so.
  pub get_compressed_i-Encodes :
      (width v : ℕ)
      → 1 ≤ width
      → width ≤ 8
      → v < 2 ^ (width * 8)
      → Encodes width (get_compressed_i im (width * 8) v) v
  unfolding get_compressed_i
  get_compressed_i-Encodes width v h1 h8 hv = elim (Bool-cases (leb (2 ^ (width * 8 - 1)) v)) [
    | inl neg ↦
        rw neg (flagged 1 (2 ^ (width * 8) - 1 - v) (omega arith) (omega arith) (omega arith))
    | inr nonneg ↦ rw nonneg (flagged 0 v hv (omega arith) refl)
  ]
    where
      flagged :
          (b x : ℕ)
          → x < 2 ^ (width * 8)
          → b < 2
          → undo_inverse (width * 8) b x ≡ v
          → Encodes width
              (record (get_compressed_u im x) {
                format_nibble = bit_or (get_compressed_u im x).format_nibble (b * 2 ^ 3);
              })
              v
      flagged b x hx hb e =
          let (lt, fit) = get_compressed_u_size width x h1 h8 hx in
          let n : ℕ = (get_compressed_u im x).format_nibble in
          let or : bit_or n (b * 2 ^ 3) ≡ n + b * 8 = bit_or_fields 3 n b (omega arith) in
          let small : (n + b * 8) % 8 + 1 ≡ suc n = omega arith in
          let set : (n + b * 8) / 8 ≡ b = omega arith in
          record {
            nibble = rw or (omega arith);
            size = rw (or, small) lt;
            bytes = rw (or, small) fit;
            fits = hx;
            value = rw (or, set) e;
          }

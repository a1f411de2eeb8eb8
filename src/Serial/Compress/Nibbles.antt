-- ===== src/Serial/Compress/Nibbles.antt =====
-- The header of size nibbles: what `malc_serialize_comp*` stores is what `decode_compressed_*` reads.
use native.Mathlib.Decide.{ℕ_discrete}
use mini_async_log_c.Common.{
  ℕ, ◌+◌, ◌*◌, ◌/◌, ◌%◌, ◌^◌, ◌≤◌, ◌<◌, bit_or, ◌≡◌, ◌≢◌, ◌⊎◌, inl, inr, List, ◌++◌, length,
  length-set, get_or, get_or-set_self, get_or-set_ne, get_or-append, replicate, get_or-replicate,
  arith,
}
use mini_async_log_c.Common.Bits.{bit_or_fields}
use mini_async_log_c.Serial.Compress.{or_nibble, get_nibble}

-- Bytes, with no nibble set from position `i` on.
pub record Fresh (h : List ℕ) (i : ℕ) : Type 0 where
  pub bytes : (k : ℕ) → get_or h k 0 < 256
  pub clear : (j : ℕ) → i ≤ j → get_nibble h j ≡ 0

pub Fresh-replicate : (n : ℕ) → Fresh (replicate n 0) 0
unfolding get_nibble
Fresh-replicate n = record {
  bytes = λ k. omega (arith, get_or-replicate {A = ℕ} n k 0);
  clear = λ j h. rw (get_or-replicate {A = ℕ} n (j / 2) 0) (zeros (2 ^ (j % 2 * 4)));
}
  where
    zeros : (p : ℕ) → 0 / p % 16 ≡ 0
    zeros p = omega arith

pub length-or_nibble : (h : List ℕ) (i n : ℕ) → length (or_nibble h i n) ≡ length h
unfolding or_nibble
length-or_nibble h i n = length-set h (i / 2) _

pub get_nibble-append :
    (h rest : List ℕ) (i : ℕ) → i / 2 < length h → get_nibble (h ++ rest) i ≡ get_nibble h i
unfolding get_nibble
get_nibble-append h rest i lt = rw (get_or-append h rest (i / 2) 0 lt)

pub get_nibble-lt : (h : List ℕ) (i : ℕ) → get_nibble h i < 16
unfolding get_nibble
get_nibble-lt h i = omega arith

parity : (i : ℕ) → (i % 2 ≡ 0) ⊎ (i % 2 ≡ 1)
parity i = grind arith

module _ (h : List ℕ) (i n : ℕ) (fresh : Fresh h i) (small : n < 16) where
  -- The byte that holds a free position has nothing at or above it.
  byte_below : get_or h (i / 2) 0 < 2 ^ (i % 2 * 4)
  unfolding get_nibble
  byte_below = elim (parity i) [
    | inl even ↦ rw even (
        omega
          (arith, fresh.bytes (i / 2), here even, next even (fresh.clear (i + 1) (omega arith))))
    | inr odd ↦ rw odd (omega (arith, fresh.bytes (i / 2), rw odd at (fresh.clear i (omega arith))))
  ]
    where
      here : i % 2 ≡ 0 → get_or h (i / 2) 0 / 2 ^ (0 * 4) % 16 ≡ 0
      here even = rw even at (fresh.clear i (omega arith))

      next : i % 2 ≡ 0 → get_nibble h (i + 1) ≡ 0 → get_or h (i / 2) 0 / 2 ^ (1 * 4) % 16 ≡ 0
      next even z =
          let same : (i + 1) / 2 ≡ i / 2 = omega arith in
          let odd : (i + 1) % 2 ≡ 1 = omega arith in rw (same, odd) at z

  sum_lt : get_or h (i / 2) 0 + n * 2 ^ (i % 2 * 4) < 256
  sum_lt = elim (parity i) [
    | inl even ↦ rw even (omega (arith, rw even at byte_below))
    | inr odd ↦ rw odd (omega (arith, rw odd at byte_below))
  ]

  -- So `|` adds the nibble.
  or_byte :
      bit_or (get_or h (i / 2) 0) (n % 256 * 2 ^ (i % 2 * 4)) % 256
      ≡ get_or h (i / 2) 0 + n * 2 ^ (i % 2 * 4)
  or_byte =
      let e : n % 256 ≡ n = omega arith in
      rw (e, bit_or_fields (i % 2 * 4) (get_or h (i / 2) 0) n byte_below) (omega (arith, sum_lt))

  -- Storing a nibble at a free position makes it readable there ...
  pub get_nibble-or_nibble_self : i / 2 < length h → get_nibble (or_nibble h i n) i ≡ n
  unfolding get_nibble or_nibble
  get_nibble-or_nibble_self lt =
      rw (get_or-set_self h (i / 2) _ 0 lt, or_byte)
        (elim (parity i) [
          | inl even ↦ rw even (omega (arith, rw even at byte_below))
          | inr odd ↦ rw odd (omega (arith, rw odd at byte_below))
        ])

  same_byte :
      (j : ℕ)
      → j ≢ i
      → i / 2 ≡ j / 2
      → (get_or h (i / 2) 0 + n * 2 ^ (i % 2 * 4)) / 2 ^ (j % 2 * 4) % 16
        ≡ get_or h (i / 2) 0 / 2 ^ (j % 2 * 4) % 16
  same_byte j ne e = elim (parity i) [
    | inl even ↦
        let other : j % 2 ≡ 1 = omega arith in
        rw (even, other) (omega (arith, rw even at byte_below))
    | inr odd ↦ let other : j % 2 ≡ 0 = omega arith in rw (odd, other) (omega arith)
  ]

  -- ... and leaves every other position as it was.
  pub get_nibble-or_nibble_ne :
      (j : ℕ) → j ≢ i → i / 2 < length h → get_nibble (or_nibble h i n) j ≡ get_nibble h j
  unfolding get_nibble or_nibble
  get_nibble-or_nibble_ne j ne lt = elim (ℕ_discrete (i / 2) (j / 2)) [
    | yes e ↦ rw (← e, get_or-set_self h (i / 2) _ 0 lt, or_byte) (same_byte j ne e)
    | no p ↦ rw (get_or-set_ne h (i / 2) (j / 2) _ 0 p)
  ]

  stays_bytes : i / 2 < length h → (k : ℕ) → get_or (or_nibble h i n) k 0 < 256
  unfolding or_nibble
  stays_bytes lt k = elim (ℕ_discrete (i / 2) k) [
    | yes e ↦ rw (← e, get_or-set_self h (i / 2) _ 0 lt, or_byte) sum_lt
    | no p ↦ rw (get_or-set_ne h (i / 2) k _ 0 p) (fresh.bytes k)
  ]

  pub or_nibble-Fresh : i / 2 < length h → Fresh (or_nibble h i n) (i + 1)
  or_nibble-Fresh lt = record {
    bytes = stays_bytes lt;
    clear =
        λ j le. rw (get_nibble-or_nibble_ne j (λ e. omega arith) lt) (fresh.clear j (omega arith));
  }

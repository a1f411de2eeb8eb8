-- ===== src/Common/Bits.antt =====
-- `|` of disjoint bit fields is a sum, at every width.
use Prim.Native.Nat.{
  ℕ, zero, suc, ◌+◌, ◌*◌, ◌/◌, ◌%◌, ◌^◌, ◌≤◌, ◌<◌, max, digits, bit_or, bit_or-bitwise,
}
use mathlib.Core.Path.{◌≡◌, ap}
use native.Mathlib.Nat.{pow-suc}
use native.Mathlib.Omega.{arith}

-- A number shifted by one place more: its lowest digit, and what is above it.
shifted_once : (q k : ℕ) → (q * 2 ^ suc k / 2 ≡ q * 2 ^ k) × (q * 2 ^ suc k % 2 ≡ 0)
shifted_once q k =
    let doubled : q * 2 ^ suc k ≡ 2 * (q * 2 ^ k) =
      omega (arith, ap (λ (t : ℕ). q * t) (pow-suc 2 k)) in
    (omega (arith, doubled), omega (arith, doubled))

-- The digits of `|`, where those of the field `r` end below the place at which `q` stands.
field_digits :
    (rounds k r q : ℕ)
    → r ≤ rounds
    → r < 2 ^ k
    → digits (λ y. y) max rounds r (q * 2 ^ k) ≡ r + q * 2 ^ k
field_digits zero k zero q few fits = omega arith
field_digits zero k (suc r) q few fits = absurd (omega arith)
field_digits (suc rounds) k zero q few fits = omega arith
field_digits (suc rounds) zero (suc r) q few fits = absurd (omega arith)
field_digits (suc rounds) (suc k) (suc r) q few fits =
    let (above, lowest) = shifted_once q k in
    rw
      (
        above,
        lowest,
        field_digits rounds k (suc r / 2) q (omega arith) (omega (arith, pow-suc 2 k)),
      )
      (omega (arith, above, lowest))

pub zero-bit_or : (b : ℕ) → bit_or 0 b ≡ b
zero-bit_or b = simp bit_or-bitwise

-- `r | (q << k)` is a sum when `r` fits `k` bits.
pub bit_or_fields : (k r q : ℕ) → r < 2 ^ k → bit_or r (q * 2 ^ k) ≡ r + q * 2 ^ k
bit_or_fields k r q fits = simp bit_or-bitwise (field_digits r k r q (omega arith) fits)

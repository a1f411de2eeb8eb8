-- ===== src/EntryParser/Entry/Timestamp.antt =====
-- The timestamp of an entry as `entry_parser_get_log_strings` of src/malc/entry_parser.c prints it.
use mini_async_log_c.Common.{
  ℕ, zero, suc, ◌+◌, ◌-◌, ◌*◌, ◌/◌, ◌%◌, ◌^◌, ◌≤◌, ◌<◌, ◌≡◌, refl, ap, ◌∙◌, List, [], ◌∷◌, ◌++◌,
  length, take, drop, false, ◌==◌, All, arith,
}
use mini_async_log_c.EntryParser.Entry.{decimal, print_timestamp, nsec_in_sec}

-- So many digits of a number before a text.
abbrev digits_before : ℕ → ℕ → List ℕ → List ℕ
digits_before zero v acc = acc
digits_before (suc w) v acc = digits_before w (v / 10) ((b'0' + v % 10) ∷ acc)

-- The number that decimal digits read as, behind those that read as `n`.
abbrev pub read_decimal : ℕ → List ℕ → ℕ
read_decimal n [] = n
read_decimal n (d ∷ ds) = read_decimal (n * 10 + (d - b'0')) ds

pow_suc : (n : ℕ) → 10 ^ suc n ≡ 10 * 10 ^ n
pow_suc n = omega arith

shifted : (n w v : ℕ) → (n * 10 ^ w + v / 10) * 10 + v % 10 ≡ n * 10 ^ suc w + v
shifted n w v = rw (pow_suc w) (omega arith)

zero_only : (v : ℕ) → v < 1 → v ≡ 0
zero_only v h = omega arith

positive : (w : ℕ) → (suc w == 0) ≡ false
positive w = ground arith

pred_suc : (w : ℕ) → suc w - 1 ≡ w
pred_suc w = omega arith

quotient_fits : (w v : ℕ) → v < 10 ^ suc w → v / 10 < 10 ^ w
quotient_fits w v h = divided (10 ^ w) (rw (pow_suc w) at h)
  where
    divided : (p : ℕ) → v < 10 * p → v / 10 < p
    divided p h = omega arith

decimal_fixed :
    (rounds w v : ℕ) (acc : List ℕ)
    → w ≤ rounds
    → v < 10 ^ w
    → decimal rounds w v acc ≡ digits_before w v acc
unfolding decimal
decimal_fixed zero zero v acc l h = refl
decimal_fixed zero (suc w) v acc l h = absurd (omega arith)
decimal_fixed (suc rounds) zero v acc l h = rw (zero_only v h) refl
decimal_fixed (suc rounds) (suc w) v acc l h =
    rw (pred_suc w, positive w)
      (decimal_fixed rounds w (v / 10) _ (omega arith) (quotient_fits w v h))

length-digits_before : (w v : ℕ) (acc : List ℕ) → length (digits_before w v acc) ≡ w + length acc
length-digits_before zero v acc = omega arith
length-digits_before (suc w) v acc =
    omega (arith, length-digits_before w (v / 10) ((b'0' + v % 10) ∷ acc))

digit : (d : ℕ) → b'0' + d - b'0' ≡ d
digit d = omega arith

read_decimal-digits_before :
    (w v n : ℕ) (acc : List ℕ)
    → v < 10 ^ w
    → read_decimal n (digits_before w v acc) ≡ read_decimal (n * 10 ^ w + v) acc
read_decimal-digits_before zero v n acc h = ap (λ x. read_decimal x acc) (omega arith)
read_decimal-digits_before (suc w) v n acc h =
    read_decimal-digits_before w (v / 10) n _ (quotient_fits w v h)
    ∙ ap (λ x. read_decimal x acc) (rw (digit (v % 10)) (shifted n w v))

digits_before-append :
    (w v : ℕ) (a b : List ℕ) → digits_before w v (a ++ b) ≡ digits_before w v a ++ b
digits_before-append zero v a b = refl
digits_before-append (suc w) v a b = digits_before-append w (v / 10) (_ ∷ a) b

abbrev pub IsDigit : ℕ → Type 0
IsDigit c = (b'0' ≤ c) × (c ≤ b'9')

digits_before-IsDigit :
    (w v : ℕ) (acc : List ℕ) → All IsDigit acc → All IsDigit (digits_before w v acc)
digits_before-IsDigit zero v acc h = h
digits_before-IsDigit (suc w) v acc h =
    digits_before-IsDigit w (v / 10) _ ((omega arith, omega arith), h)

-- The timestamp is 21 characters long: 11 decimal digits that read as the seconds of it, a point, and
-- decimal digits that read as the rest in nanoseconds, for a timestamp of 64 bits.
pub print_timestamp-reads :
    (t : ℕ)
    → t < 2 ^ 64
    → (length (print_timestamp t) ≡ 21)
      × ((read_decimal 0 (take 11 (print_timestamp t)) ≡ t / nsec_in_sec)
          × (read_decimal 0 (drop 12 (print_timestamp t)) ≡ t % nsec_in_sec))
      × (take 1 (drop 11 (print_timestamp t)) ≡ b'.' ∷ [])
      × All IsDigit (take 11 (print_timestamp t))
      × All IsDigit (drop 12 (print_timestamp t))
unfolding print_timestamp
print_timestamp-reads t h =
    rw
      (
        print_timestamp,
        decimal_fixed 20 11 (t / nsec_in_sec) (b'.' ∷ []) (omega arith) (omega arith),
        decimal_fixed 20 9 (t % nsec_in_sec) [] (omega arith) (omega arith),
      )
      (
        refl,
        (
          read_decimal-digits_before 11 (t / nsec_in_sec) 0 [] (omega arith) ∙ omega arith,
          (read_decimal-digits_before 9 (t % nsec_in_sec) 0 [] (omega arith) ∙ omega arith),
        ),
        refl,
        digits_before-IsDigit 11 (t / nsec_in_sec) [] tt,
        digits_before-IsDigit 9 (t % nsec_in_sec) [] tt,
      )

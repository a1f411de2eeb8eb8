-- ===== src/ArrayDst/Newest.antt =====
-- src/malc/destinations/array.c: where the newest entry lies and what is read there.
use mathlib.Core.Option.{map, some-injective}
use native.Mathlib.Nat.{
  eq_of_mul-eq-mul_right, mod-eq_of_lt, suc-mod, mod-lt, mod_self, add-mod_right, add-mul,
}
use mini_async_log_c.Common.{
  ℕ, suc, ◌+◌, ◌-◌, ◌*◌, ◌%◌, ◌^◌, ◌<◌, ◌≡◌, ◌≢◌, refl, sym, ◌∙◌, ap, inl, inr, true, some, ◌++◌,
  ltb, ==_ne, ltb→lt, ◌⊎◌, Bool-cases, length, All, arith,
}
use mini_async_log_c.Destinations.Types.{LogStrings}
use mini_async_log_c.ArrayDst.{ArrayDst, write, get_entry, read_string}
use mini_async_log_c.ArrayDst.Text.{
  entry_text, write_entry-copy, read_string-Holds, Holds-copy, Holds-store, length-take,
}

-- The wrap of the position at 2^64 is harmless exactly where the number of entries divides 2^64.
last_slot : (a n : ℕ) → 1 < n → suc a % n ≡ 0 → a % n ≡ n - 1
last_slot a n h e = elim (Bool-cases (ltb (suc (a % n)) n)) [
  | inl b ↦ absurd (zero_ne (sym (mod-eq_of_lt (ltb→lt _ _ b)) ∙ sym (suc-mod a n) ∙ e))
  | inr b ↦ ground (arith, mod-lt a {m = n} (omega arith))
]
  where
    zero_ne : suc (a % n) ≢ 0
    zero_ne f = omega arith

last_slot_conv : (a n : ℕ) → 1 < n → a % n ≡ n - 1 → suc a % n ≡ 0
last_slot_conv a n h e = suc-mod a n ∙ rw (e, back) (mod_self n)
  where
    back : suc (n - 1) ≡ n
    back = omega arith

-- An array that `malc_array_dst_set_array` has set up for at least two entries of at least two
-- characters, in a state that writes can leave it in.
abbrev pub Ready : ArrayDst → Type 0
Ready d =
    (d.has_mem ≡ true)
    × (1 < d.mem_entries)
    × (1 < d.entry_chars)
    × (d.tail < d.mem_entries)
    × (d.size < d.mem_entries)
    × (d.mem_entries < 2 ^ 64)

write-Ready : (strs : LogStrings) (d : ArrayDst) → Ready d → Ready (write strs d)
unfolding write
write-Ready strs d (has, entries, chars, tail, size, small) =
    (has, entries, chars, mod-lt (d.tail + 1) {m = d.mem_entries} (omega arith), omega arith, small)

-- The position of the newest entry, by the tail.
located :
    (d : ArrayDst)
    → d.has_mem ≡ true
    → 1 < d.mem_entries
    → 1 < d.entry_chars
    → d.size ≢ 0
    → d.size < d.mem_entries
    → d.mem_entries < 2 ^ 64
    → get_entry d (d.size - 1)
      ≡ some ((d.tail + (2 ^ 64 - 1)) % 2 ^ 64 % d.mem_entries * d.entry_chars)
unfolding get_entry
located d has entries chars nonempty size small =
    let n_ne : d.mem_entries ≢ 0 = λ e. omega arith in
    let c_ne : d.entry_chars ≢ 0 = λ e. omega arith in
    let inside : ltb (d.size - 1) d.size ≡ true = ground arith in
    let sum : d.tail + (2 ^ 64 - d.size) + (d.size - 1) ≡ d.tail + (2 ^ 64 - 1) = omega arith in
    rw (has, ==_ne n_ne, ==_ne c_ne, inside, sum) refl

newest_position :
    (strs : LogStrings) (d : ArrayDst)
    → Ready d
    → get_entry (write strs d) ((write strs d).size - 1)
      ≡ some
          (((d.tail + 1) % d.mem_entries + (2 ^ 64 - 1)) % 2 ^ 64 % d.mem_entries * d.entry_chars)
unfolding write
newest_position strs d ready =
    let (has, entries, chars, tail, size, small) = write-Ready strs d ready in
    located (write strs d) has entries chars (λ e. ground arith) size small

wrapped :
    (t n : ℕ)
    → t < n
    → 1 < n
    → n < 2 ^ 64
    → 2 ^ 64 % n ≡ 0
    → ((t + 1) % n + (2 ^ 64 - 1)) % 2 ^ 64 % n ≡ t
wrapped t n lt one small e = elim (Bool-cases (ltb (t + 1) n)) [
  | inl b ↦
      rw (mod-eq_of_lt {n = t + 1} {m = n} (ltb→lt _ _ b), shifted)
        (rw (add-mod_right t (2 ^ 64), mod-eq_of_lt {n = t} {m = 2 ^ 64} below) (mod-eq_of_lt lt))
  | inr b ↦
      (let full : t + 1 ≡ n = ground arith in
        rw (full, mod_self n) (last_slot (2 ^ 64 - 1) n one e ∙ omega arith))
]
  where
    shifted : t + 1 + (2 ^ 64 - 1) ≡ t + 2 ^ 64
    shifted = omega arith

    below : t < 2 ^ 64
    below = omega arith

-- The slot that the tail moves to starts outside the text of the entry just written.
next_slot_outside :
    (t n c l : ℕ)
    → t < n
    → 1 < n
    → 0 < c
    → l < c
    → ((t + 1) % n * c < t * c) ⊎ (t * c + l < (t + 1) % n * c)
next_slot_outside t n c l lt one pos short = elim (Bool-cases (ltb (t + 1) n)) [
  | inl b ↦
      rw (mod-eq_of_lt {n = t + 1} {m = n} (ltb→lt _ _ b)) (inr (omega (arith, add-mul t 1 c)))
  | inr b ↦
      (let full : t + 1 ≡ n = ground arith in
        let back : t * c ≡ (t - 1 + 1) * c = ap (λ k. k * c) (omega arith) in
        let grown : t * c ≡ (t - 1) * c + 1 * c = back ∙ add-mul (t - 1) 1 c in
        rw (full, mod_self n) (inl (omega (arith, grown))))
]

-- In an array of at least two entries of at least two characters whose number of entries is
-- below 2^64 and divides it, the newest entry is read back after a write, wherever the tail is:
-- the characters of the three texts that fit, provided that none of these is a zero.
pub newest_entry :
    (strs : LogStrings) (d : ArrayDst)
    → Ready d
    → 2 ^ 64 % d.mem_entries ≡ 0
    → All (λ x. x ≢ 0) (entry_text (d.entry_chars - 1) strs)
    → map
        (read_string (write strs d).mem d.entry_chars)
        (get_entry (write strs d) ((write strs d).size - 1))
      ≡ some (entry_text (d.entry_chars - 1) strs)
unfolding write
newest_entry strs d ready divides nz =
    let (has, entries, chars, tail, size, small) = ready in
    let t = entry_text (d.entry_chars - 1) strs in
    let short : length t < d.entry_chars =
      omega (arith, length-take (d.entry_chars - 1) (strs.timestamp ++ (strs.sev ++ strs.text))) in
    rw (newest_position strs d ready, wrapped d.tail d.mem_entries tail entries small divides)
      (ap some (
        read_string-Holds _ d.entry_chars (d.tail * d.entry_chars) t
          (rw (write_entry-copy d.mem (d.tail * d.entry_chars) (d.entry_chars - 1) strs) (
            Holds-store _ _ _ t
              (next_slot_outside d.tail d.mem_entries d.entry_chars (length t) tail entries
                (omega arith) short)
              (Holds-copy d.mem (d.tail * d.entry_chars) t)))
          nz short))

-- In an array of at least two entries of at least two characters whose number of entries is
-- below 2^64 and does not divide it, a write to the last slot, where the tail wraps, leaves the
-- newest entry where `malc_array_dst_get_entry` does not look for it.
pub newest_entry_lost :
    (strs : LogStrings) (d : ArrayDst)
    → Ready d
    → 2 ^ 64 % d.mem_entries ≢ 0
    → d.tail + 1 ≡ d.mem_entries
    → get_entry (write strs d) ((write strs d).size - 1) ≢ some (d.tail * d.entry_chars)
newest_entry_lost strs d ready rest wraps e =
    let (has, entries, chars, tail, size, small) = ready in
    let start : (d.tail + 1) % d.mem_entries ≡ 0 = rw wraps (mod_self d.mem_entries) in
    let at_end : (2 ^ 64 - 1) % d.mem_entries * d.entry_chars ≡ d.tail * d.entry_chars =
      ap (λ s. (s + (2 ^ 64 - 1)) % 2 ^ 64 % d.mem_entries * d.entry_chars) (sym start)
      ∙ some-injective _ _ (sym (newest_position strs d ready) ∙ e) in
    let same : (2 ^ 64 - 1) % d.mem_entries ≡ d.tail =
      eq_of_mul-eq-mul_right d.entry_chars (omega arith) _ _ at_end in
    rest (last_slot_conv (2 ^ 64 - 1) d.mem_entries entries (same ∙ omega arith))

-- ===== src/TlsBuffer/Loops.antt =====
-- The two loops of src/malc/tls_buffer.c over a run of slots, by the slots' indices.
use mini_async_log_c.Common.{
  ℕ, zero, suc, ◌+◌, ◌*◌, ◌≤◌, ◌<◌, ◌≡◌, ◌≢◌, refl, true, ==_refl, lt→ltb, arith,
}
use native.Mathlib.Decide.{dec_lt}
use mini_async_log_c.TlsBuffer.{Words, free_uword, store_word, free_slots, all_free}

-- The address of slot `k`.
abbrev pub at : ℕ → ℕ → ℕ → ℕ
at mem size k = mem + k * size

at-suc : (mem size k : ℕ) → at (mem + size) size k ≡ at mem size (suc k)
at-suc mem size k = grind arith

pub mul_lt : (size j k : ℕ) → 0 < size → j < k → j * size < k * size
mul_lt size j k h lt = grind arith

pub at_injective : (mem size j k : ℕ) → 0 < size → at mem size j ≡ at mem size k → j ≡ k
at_injective mem size j k h e = elim (dec_lt j k) [
  | yes p ↦ absurd (omega (arith, mul_lt size j k h p))
  | no p ↦ elim (dec_lt k j) [
    | yes q ↦ absurd (omega (arith, mul_lt size k j h q))
    | no q ↦ omega arith
  ]
]

at_zero : (a size : ℕ) → at a size 0 ≡ a
at_zero a size = omega arith

-- All slots of a run that the check accepts are free.
pub all_free_lem :
    (n a size : ℕ) (w : Words)
    → all_free n a size w ≡ true
    → (i : ℕ) → i < n
    → w (at a size i) ≡ free_uword
unfolding all_free
all_free_lem zero a size w h i lt = absurd (omega arith)
all_free_lem (suc n) a size w h zero lt = rw at_zero (ground arith)
all_free_lem (suc n) a size w h (suc i) lt =
    rw (← at-suc a size i) (all_free_lem n (a + size) size w (ground arith) i (omega arith))

-- It accepts every run of free slots.
pub all_free_complete :
    (n a size : ℕ) (w : Words)
    → ((i : ℕ) → i < n → w (at a size i) ≡ free_uword)
    → all_free n a size w ≡ true
unfolding all_free
all_free_complete zero a size w h = refl
all_free_complete (suc n) a size w h =
    let first : w a ≡ free_uword = rw at_zero at (h 0 (omega arith)) in
    rw first (all_free_complete n (a + size) size w λ i lt. rw at-suc (h (suc i) (omega arith)))

free_slots_keeps :
    (n a end size : ℕ) (w : Words) (x : ℕ)
    → w x ≡ free_uword
    → free_slots n a end size w x ≡ free_uword
unfolding free_slots
free_slots_keeps zero a end size w x h = h
free_slots_keeps (suc n) a end size w x h =
    let kept : store_word w a free_uword x ≡ free_uword = ground arith in
    ground (arith, free_slots_keeps n (a + size) end size (store_word w a free_uword) x kept)

-- The loop of the deallocation frees each of its slots ...
pub free_slots_in :
    (n a end size : ℕ) (w : Words) (i : ℕ)
    → i < n
    → 0 < size
    → a + n * size ≤ end
    → free_slots n a end size w (at a size i) ≡ free_uword
unfolding free_slots
free_slots_in zero a end size w i lt pos room = absurd (omega arith)
free_slots_in (suc n) a end size w zero lt pos room =
    rw (at_zero, lt→ltb a end (omega arith))
      (free_slots_keeps n (a + size) end size (store_word w a free_uword) a (rw ==_refl refl))
free_slots_in (suc n) a end size w (suc i) lt pos room =
    rw (← at-suc a size i, lt→ltb a end (omega arith))
      (free_slots_in n (a + size) end size (store_word w a free_uword) i (omega arith) pos
        (omega arith))

-- ... and changes no other word.
pub free_slots_out :
    (n a end size : ℕ) (w : Words) (x : ℕ)
    → ((i : ℕ) → i < n → x ≢ at a size i)
    → free_slots n a end size w x ≡ w x
unfolding free_slots
free_slots_out zero a end size w x h = refl
free_slots_out (suc n) a end size w x h =
    let ne : x ≢ a = λ e. h 0 (omega arith) (omega arith) in
    ground (
      arith,
      free_slots_out n (a + size) end size (store_word w a free_uword) x
          (λ i lt. rw at-suc (h (suc i) (omega arith))),
    )

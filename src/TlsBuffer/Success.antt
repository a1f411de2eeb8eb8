-- ===== src/TlsBuffer/Success.antt =====
-- src/malc/tls_buffer.c: when an allocation succeeds.
use mini_async_log_c.Common.{ℕ, ◌+◌, ◌*◌, ◌≤◌, ◌<◌, ◌≡◌, le→ltb, ok}
use mini_async_log_c.TlsBuffer.{Words, TlsBuffer, free_uword, slot_start, alloc_slots}
use mini_async_log_c.TlsBuffer.Loops.{at, all_free_complete}

-- An allocation of no more slots than the buffer has succeeds where the first words of the slots
-- from where it looks are free, and the next one looks behind it.
pub alloc_slots-free :
    (t : TlsBuffer) (n : ℕ) (w : Words)
    → n ≤ t.slot_count
    → ((i : ℕ) → i < n → w (at (slot_start t n) t.slot_size i) ≡ free_uword)
    → alloc_slots t n w ≡ ok (slot_start t n, record t { slot = slot_start t n + n * t.slot_size })
unfolding alloc_slots
alloc_slots-free t n w few free =
    rw (le→ltb t.slot_count n few, all_free_complete n (slot_start t n) t.slot_size w free)

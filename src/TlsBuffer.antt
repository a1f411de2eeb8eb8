-- ===== src/TlsBuffer.antt =====
-- src/malc/tls_buffer.c: the allocator of each producer thread, a ring of slots in one chunk of
-- memory. Only the first word of each slot is ever read, so memory is a function from addresses
-- to words. The thread's variable `malc_tls` is an argument.
pub mod Loops
pub mod Exclusive
pub mod Reachable
pub mod Success
use mini_async_log_c.Common.{
  ℕ, zero, suc, ◌+◌, ◌*◌, ◌/◌, ◌%◌, ◌^◌, Bool, true, false, Option, none, some, if◌then◌else◌, ltb,
  ◌==◌, Result, ok, err, alloc,
}

abbrev pub Words : Type 0
Words = ℕ → ℕ

-- `TLS_BUFFER_FREE_UWORD`
abbrev pub free_uword : ℕ
free_uword = 1

-- `struct tls_buffer`; `destructor_fn` says whether there is one.
pub record TlsBuffer : Type 0 where
  pub destructor_fn : Bool
  pub mem : ℕ
  pub mem_end : ℕ
  pub slot : ℕ
  pub slot_count : ℕ
  pub slot_size : ℕ

abbrev pub store_word : Words → ℕ → ℕ → Words
store_word w a v x = if x == a then v else w x

-- The loop of `tls_buffer_dealloc`; it takes at most one round for each slot.
unfoldable pub free_slots : ℕ → ℕ → ℕ → ℕ → Words → Words
free_slots zero slot end slot_size w = w
free_slots (suc slots) slot end slot_size w =
    let rest = free_slots slots (slot + slot_size) end slot_size (store_word w slot free_uword) in
    if ltb slot end then rest else w

-- The product of the two `u32` wraps.
abbrev pub mul_u32 : ℕ → ℕ → ℕ
mul_u32 a b = a * b % 2 ^ 32

-- `tls_buffer_dealloc`
unfoldable pub dealloc : ℕ → ℕ → ℕ → Words → Words
unfolding free_slots
dealloc mem slots slot_size w = free_slots slots mem (mem + mul_u32 slot_size slots) slot_size w

-- `sizeof (tls_buffer)`: seven fields of 8 bytes.
abbrev pub sizeof_tls_buffer : ℕ
sizeof_tls_buffer = 56

-- The size that `tls_buffer_init` allocates.
abbrev pub init_size : ℕ → ℕ → ℕ
init_size slot_size slot_count = sizeof_tls_buffer + slot_size + mul_u32 slot_size slot_count

-- `t->mem` of a buffer at address `t`. With `slot_size` a power of two, `& ~(slot_size - 1)` rounds
-- down to a multiple of it.
abbrev pub aligned_mem : ℕ → ℕ → ℕ
aligned_mem t slot_size = (t + sizeof_tls_buffer + slot_size) / slot_size * slot_size

-- `tls_buffer_init`; `bl_alloc` is the allocator, from the size to the address.
unfoldable pub init : (ℕ → Option ℕ) → ℕ → ℕ → Bool → Words → Result (TlsBuffer × Words)
unfolding dealloc
init bl_alloc slot_size slot_count destructor_fn w =
    elim (bl_alloc (init_size slot_size slot_count)) [
      | none ↦ err alloc
      | some t ↦ ok (
        record {
          destructor_fn = destructor_fn;
          mem = aligned_mem t slot_size;
          mem_end = aligned_mem t slot_size + slot_count * slot_size;
          slot = aligned_mem t slot_size;
          slot_count = slot_count;
          slot_size = slot_size;
        },
        dealloc (aligned_mem t slot_size) slot_count slot_size w,
      )
    ]

-- `while (check_iter < slot_end)` of `tls_buffer_alloc`: one round for each of the slots.
unfoldable pub all_free : ℕ → ℕ → ℕ → Words → Bool
all_free zero check_iter slot_size w = true
all_free (suc slots) check_iter slot_size w =
    let rest = all_free slots (check_iter + slot_size) slot_size w in
    if w check_iter == free_uword then rest else false

-- Where the slots are looked for: behind the last allocation, or from the start of the memory.
abbrev pub slot_start : TlsBuffer → ℕ → ℕ
slot_start t slots = if ltb t.mem_end (t.slot + slots * t.slot_size) then t.mem else t.slot

unfoldable pub alloc_slots : TlsBuffer → ℕ → Words → Result (ℕ × TlsBuffer)
unfolding all_free
alloc_slots t slots w =
    if ltb t.slot_count slots
    then err alloc
    else if all_free slots (slot_start t slots) t.slot_size w
    then ok (slot_start t slots, record t { slot = slot_start t slots + slots * t.slot_size })
    else err alloc

-- `tls_buffer_alloc`: an error when the thread has no buffer.
unfoldable pub tls_alloc : Option TlsBuffer → ℕ → Words → Result (ℕ × TlsBuffer)
unfolding alloc_slots
tls_alloc none slots w = err alloc
tls_alloc (some t) slots w = alloc_slots t slots w

-- `tls_buffer_out_of_scope_destroy`: the thread's variable and the argument, as addresses; the
-- variable afterwards, and whether the destructor runs.
unfoldable pub out_of_scope_destroy : Option ℕ → Option ℕ → Bool → Option ℕ × Bool
out_of_scope_destroy none opaque has_dtor = (none, false)
out_of_scope_destroy (some t) none has_dtor = (some t, false)
out_of_scope_destroy (some t) (some o) has_dtor =
    if t == o then (none, has_dtor) else (some t, false)

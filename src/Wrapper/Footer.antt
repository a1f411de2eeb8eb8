-- ===== src/Wrapper/Footer.antt =====
-- src/malcpp/malcpp-template.hpp: the allocator's table, kept behind a logger in the same memory.
use native.Mathlib.Nat.{mod-lt, div-add-mod', mul-mod_left}
use mini_async_log_c.Common.{ℕ, ◌+◌, ◌*◌, ◌/◌, ◌%◌, ◌^◌, ◌≤◌, ◌<◌, ◌≡◌, ap, arith}

-- `& ~(align - 1)` of an address, for a power of 2.
abbrev pub clear_low : ℕ → ℕ → ℕ
clear_low align address = address / align * align

-- `get_aligned_footer_data`
unfoldable pub get_aligned_footer_data : ℕ → ℕ → ℕ → ℕ
get_aligned_footer_data align header_ptr header_size =
    clear_low align (((header_ptr + header_size) % 2 ^ 64 + align) % 2 ^ 64)

-- The size that `construct_impl` asks the allocator for: the logger's, and the alignment and the size of
-- `malc_alloc_data`.
unfoldable pub construct_size : ℕ → ℕ → ℕ → ℕ
construct_size align malc_size data_size = malc_size + align + data_size

-- The data lies behind the logger, inside of the memory that was asked for, and is aligned, where
-- this memory ends below 2^64.
pub get_aligned_footer_data-inside :
    (align ptr malc_size data_size : ℕ)
    → 0 < align
    → ptr + construct_size align malc_size data_size < 2 ^ 64
    → (ptr + malc_size < get_aligned_footer_data align ptr malc_size)
      × (get_aligned_footer_data align ptr malc_size + data_size
          ≤ ptr + construct_size align malc_size data_size)
      × (get_aligned_footer_data align ptr malc_size % align ≡ 0)
unfolding get_aligned_footer_data construct_size
get_aligned_footer_data-inside align ptr malc_size data_size pos fits = (
  omega (arith, whole, split, mod-lt (ptr + malc_size + align) pos),
  omega (arith, whole, split, fits),
  mul-mod_left _ align,
)
  where
    no_wrap : ((ptr + malc_size) % 2 ^ 64 + align) % 2 ^ 64 ≡ ptr + malc_size + align
    no_wrap = omega (arith, fits)

    whole : get_aligned_footer_data align ptr malc_size ≡ (ptr + malc_size + align) / align * align
    whole = ap (clear_low align) no_wrap

    split :
        (ptr + malc_size + align) / align * align + (ptr + malc_size + align) % align
        ≡ ptr + malc_size + align
    split = div-add-mod' (ptr + malc_size + align) align

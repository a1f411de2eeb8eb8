-- ===== src/Serial/Compress.antt =====
-- The compressed integers of include/malc/impl/serialization.h: `malc_get_compressed_*`, and the
-- byte and nibble loops of `malc_serialize_comp*` and `decode_compressed_*`.
pub mod Laws
pub mod Nibbles
use mini_async_log_c.Common.{
  ℕ, zero, suc, ◌+◌, ◌-◌, ◌*◌, ◌/◌, ◌%◌, ◌^◌, bit_or, Bool, List, [], ◌∷◌, if◌then◌else◌, leb, ◌==◌,
  get_or, set,
}
use mini_async_log_c.Common.BaseLibrary.{IntegerMath}
use mini_async_log_c.Serial.Values.{Compressed}

-- `malc_compressed_get_size`
abbrev pub compressed_get_size : ℕ → ℕ
compressed_get_size nibble = nibble % 8 + 1

module _ (im : IntegerMath) where
  -- `malc_get_compressed_u32`, and `malc_get_compressed_u64`, which reads the same.
  unfoldable pub get_compressed_u : ℕ → Compressed
  get_compressed_u v = record { v = v; format_nibble = if v == 0 then 0 else im.log2_floor v / 8 }

  -- `malc_get_compressed_i32` at `w = 32`, `malc_get_compressed_i64` at `w = 64`: `v` is the bit
  -- pattern, so `v < 0` is its top bit and `~v` is `2 ^ w - 1 - v`.
  unfoldable pub get_compressed_i : ℕ → ℕ → Compressed
  unfolding get_compressed_u
  get_compressed_i w v =
      let negative = leb (2 ^ (w - 1)) v in
      let r = get_compressed_u (if negative then 2 ^ w - 1 - v else v) in
      record r { format_nibble = bit_or r.format_nibble ((if negative then 1 else 0) * 2 ^ 3) }

-- `hdr[idx / 2] |= (uint8_t) nibble << ((idx & 1) * 4)`
unfoldable pub or_nibble : List ℕ → ℕ → ℕ → List ℕ
or_nibble hdr idx nibble =
    set hdr (idx / 2) (bit_or (get_or hdr (idx / 2) 0) (nibble % 256 * 2 ^ (idx % 2 * 4)) % 256)

-- `(hdr[idx / 2] >> ((idx & 1) * 4)) & 15`
unfoldable pub get_nibble : List ℕ → ℕ → ℕ
get_nibble hdr idx = get_or hdr (idx / 2) 0 / 2 ^ (idx % 2 * 4) % 16

-- `for (i = 0; i < size; ++i) *field_mem++ = (uint8_t) (v >> (i * 8))`, from round `i` on.
unfoldable pub comp_bytes : ℕ → ℕ → ℕ → List ℕ
comp_bytes zero i v = []
comp_bytes (suc left) i v = (v / 2 ^ (i * 8) % 256) ∷ comp_bytes left (i + 1) v

-- `for (i = 0; i < size; ++i) *v |= ((uint) *(*mem)++) << (i * 8)` at `w` bits, from round `i` on.
unfoldable pub comp_value : ℕ → ℕ → ℕ → List ℕ → ℕ → ℕ
comp_value w zero i mem v = v
comp_value w (suc left) i [] v = v
comp_value w (suc left) i (b ∷ mem) v =
    comp_value w left (i + 1) mem (bit_or v (b * 2 ^ (i * 8) % 2 ^ w))

-- `v = inv ? ~v : v`
abbrev pub undo_inverse : ℕ → ℕ → ℕ → ℕ
undo_inverse w inv v = if inv == 0 then v else 2 ^ w - 1 - v

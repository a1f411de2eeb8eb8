-- ===== src/ArrayDst.antt =====
-- src/malc/destinations/array.c: a destination that keeps the last entries in an array of the
-- user's. The array is memory addressed from `mem`; arithmetic on `size_t` wraps at 2^64.
pub mod Text
pub mod Newest
use mini_async_log_c.Common.{
  ℕ, zero, suc, ◌+◌, ◌-◌, ◌*◌, ◌%◌, ◌^◌, min, Bool, true, false, ◌&&◌, not, Option, none, some,
  List, [], ◌∷◌, if◌then◌else◌, ltb, ◌==◌, length, take,
}
use mini_async_log_c.Destinations.Types.{LogStrings}

-- `struct malc_array_dst`; `has_mem` says that `mem` is not null.
pub record ArrayDst : Type 0 where
  pub has_mem : Bool
  pub mem : ℕ → ℕ
  pub mem_entries : ℕ
  pub entry_chars : ℕ
  pub tail : ℕ
  pub size : ℕ

-- One character written.
unfoldable pub store : (ℕ → ℕ) → ℕ → ℕ → ℕ → ℕ
store m a v b = if b == a then v else m b

-- `memcpy`
unfoldable pub copy : (ℕ → ℕ) → ℕ → List ℕ → ℕ → ℕ
unfolding store
copy m a [] = m
copy m a (x ∷ xs) = copy (store m a x) (suc a) xs

-- `malc_array_dst_init`
unfoldable pub init : (ℕ → ℕ) → ArrayDst
init m = record { has_mem = false; mem = m; mem_entries = 0; entry_chars = 0; tail = 0; size = 0 }

-- `malc_array_dst_set_array`
unfoldable pub set_array : (ℕ → ℕ) → ℕ → ℕ → ArrayDst → ArrayDst
set_array m mem_entries entry_chars d = record {
  has_mem = true;
  mem = (λ a. if ltb a (mem_entries * entry_chars) then 0 else m a);
  mem_entries = mem_entries;
  entry_chars = entry_chars;
  tail = 0;
  size = 0;
}

-- The copies of `malc_array_dst_write` and the zero after them, from `eoffset`.
unfoldable pub write_entry : (ℕ → ℕ) → ℕ → ℕ → LogStrings → ℕ → ℕ
unfolding copy store
write_entry m eoffset entry_len strs =
    let cp1 = min entry_len (length strs.timestamp) in
    let m1 = copy m eoffset (take cp1 strs.timestamp) in
    let cp2 = min (entry_len - cp1) (length strs.sev) in
    let m2 = copy m1 (eoffset + cp1) (take cp2 strs.sev) in
    let cp3 = min (entry_len - (cp1 + cp2)) (length strs.text) in
    let m3 = copy m2 (eoffset + (cp1 + cp2)) (take cp3 strs.text) in
    store m3 (eoffset + (cp1 + cp2 + cp3)) 0

-- `malc_array_dst_write`
unfoldable pub write : LogStrings → ArrayDst → ArrayDst
unfolding write_entry store
write strs d =
    let tail = (d.tail + 1) % d.mem_entries in
    record d {
      mem =
          store (write_entry d.mem (d.tail * d.entry_chars) (d.entry_chars - 1) strs)
            (tail * d.entry_chars) 0;
      tail = tail;
      size = min (d.size + 1) (d.mem_entries - 1);
    }

-- `malc_array_dst_size`
unfoldable pub size_of : ArrayDst → ℕ
size_of d = d.size

-- `malc_array_dst_capacity`
unfoldable pub capacity : ArrayDst → ℕ
capacity d = if d.mem_entries == 0 then 2 ^ 64 - 1 else d.mem_entries - 1

-- `malc_array_dst_get_entry`: the index in the array where the entry starts.
unfoldable pub get_entry : ArrayDst → ℕ → Option ℕ
get_entry d idx =
    if d.has_mem && not (d.mem_entries == 0) && not (d.entry_chars == 0) && ltb idx d.size
    then (let pos = (d.tail + (2 ^ 64 - d.size) + idx) % 2 ^ 64 % d.mem_entries in
        some (pos * d.entry_chars))
    else none

-- The characters from an index up to a zero, as a C string is read, `left` at most.
unfoldable pub read_string : (ℕ → ℕ) → ℕ → ℕ → List ℕ
read_string m zero a = []
read_string m (suc left) a =
    let rest = read_string m left (suc a) in if m a == 0 then [] else m a ∷ rest

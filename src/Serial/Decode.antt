-- ===== src/Serial/Decode.antt =====
-- The `decode_*` functions of src/malc/serialization.c.
pub mod Laws
use mini_async_log_c.Common.{
  ℕ, ◌+◌, ◌-◌, ◌/◌, ◌%◌, ◌^◌, Bool, true, false, ◌||◌, List, [], ◌∷◌, if◌then◌else◌, ltb, ◌==◌,
  length, take, drop, Result, ok, err, BlErr, invalid, ◌>>=◌,
}
use mini_async_log_c.Common.Bytes.{of_le_bytes}
use mini_async_log_c.Serial.Values.{
  Build, StaticData, LogArgument, vu8, vu16, vu32, vfloat, vu64, vdouble, vptr, vlit, vstrcp,
  vstrref, vobj, vobjctx, vobjflag, RefDtor, type_i8, type_u8, type_i16, type_u16, type_i32,
  type_u32, type_float, type_i64, type_u64, type_double, type_ptr, type_lit, type_strcp, type_memcp,
  type_strref, type_memref, type_refdtor, type_obj, type_obj_ctx, type_obj_flag,
}
use mini_async_log_c.Serial.Compress.{get_nibble, comp_value, undo_inverse}

-- `compressed_header`, and the memory from `*mem` up to `mem_end`. The header's bytes are read with
-- no check, so `hdr` is all that lies behind its first byte.
pub record Cursor : Type 0 where
  pub hdr : List ℕ
  pub idx : ℕ
  pub mem : List ℕ

abbrev pub Decoder : Type 0 → Type 0
Decoder A = Cursor → Result (A × Cursor)

-- The next `n` bytes, if there are as many.
abbrev pub decode_span : ℕ → Decoder (List ℕ)
decode_span n c =
    if ltb (length c.mem) n then err invalid else ok (take n c.mem, record c { mem = drop n c.mem })

-- `memcpy` of an `n`-byte integer: `decode_8`, `decode_16`, `decode_float`, `decode_double`, and
-- `decode_32` and `decode_64` without compression.
unfoldable pub decode_int : ℕ → Decoder ℕ
decode_int n c = do (bs, c') ← decode_span n c; ok (of_le_bytes bs, c')

-- `decode_compressed_32`
unfoldable pub decode_compressed_32 : Decoder ℕ
decode_compressed_32 c =
    let fmt = get_nibble c.hdr c.idx in
    let size = fmt % 8 + 1 in
    if ltb (length c.mem) size || ltb 4 size
    then err invalid
    else ok (
      undo_inverse 32 (fmt / 8) (comp_value 32 size 0 c.mem 0),
      record c { mem = drop size c.mem; idx = c.idx + 1 },
    )

-- `decode_compressed_64`
unfoldable pub decode_compressed_64 : Decoder ℕ
decode_compressed_64 c =
    let fmt = get_nibble c.hdr c.idx in
    let size = fmt % 8 + 1 in
    if ltb (length c.mem) size
    then err invalid
    else ok (
      undo_inverse 64 (fmt / 8) (comp_value 64 size 0 c.mem 0),
      record c { mem = drop size c.mem; idx = c.idx + 1 },
    )

-- `decode_strcp` and `decode_memcp`
unfoldable pub decode_strcp : Decoder (List ℕ)
decode_strcp c = do (n, c') ← decode_int 2 c; decode_span n c'

-- What the decoding of one argument hands on.
pub data Decoded : Type 0 where
  push : LogArgument → Decoded
  push_ref : ℕ → ℕ → Decoded
  set_refdtor : RefDtor → Decoded

abbrev pub mapped : {A B : Type 0} → (A → B) → Result (A × Cursor) → Result (B × Cursor)
mapped f (ok (a, c)) = ok (f a, c)
mapped f (err e) = err e

module _ (b : Build) (static : StaticData) where
  unfoldable pub decode_32 : Decoder ℕ
  unfolding decode_int decode_compressed_32
  decode_32 c = if b.compression then decode_compressed_32 c else decode_int 4 c

  unfoldable pub decode_64 : Decoder ℕ
  unfolding decode_int decode_compressed_64
  decode_64 c = if b.compression then decode_compressed_64 c else decode_int 8 c

  -- `decode_ptr`, little endian.
  unfoldable pub decode_ptr : Decoder ℕ
  unfolding decode_int
  decode_ptr c = decode_int b.ptr_bytes c

  -- `decode_strref` and `decode_memref`
  unfoldable pub decode_strref : Decoder (ℕ × ℕ)
  unfolding decode_ptr
  decode_strref c = do (n, c') ← decode_int 2 c; (p, c'') ← decode_ptr c'; ok ((p, n), c'')

  unfoldable pub decode_refdtor : Decoder RefDtor
  unfolding decode_ptr
  decode_refdtor c = do
    (f, c') ← decode_ptr c
    (x, c'') ← decode_ptr c'
    ok (record { func = f; context = x }, c'')

  unfoldable pub decode_obj : Decoder (ℕ × List ℕ)
  unfolding decode_ptr
  decode_obj c = do
    (table, c') ← decode_ptr c
    (obj, c'') ← decode_span (static.obj_sizeof table) c'
    ok ((table, obj), c'')

  unfoldable pub decode_obj_ctx : Decoder LogArgument
  unfolding decode_obj
  decode_obj_ctx c = do
    (context, c') ← decode_ptr c
    (base, c'') ← decode_obj c'
    ok (vobjctx context base.0 base.1, c'')

  unfoldable pub decode_obj_flag : Decoder LogArgument
  unfolding decode_obj
  decode_obj_flag c = do
    (flag, c') ← decode_int 1 c
    (base, c'') ← decode_obj c'
    ok (vobjflag flag base.0 base.1, c'')

  -- The `switch` of `deserializer_execute`; an unknown type is an error.
  unfoldable pub decode_arg : ℕ → Decoder Decoded
  decode_arg ch c =
      if ch == type_i8 || ch == type_u8
      then mapped (λ v. push (vu8 v)) (decode_int 1 c)
      else if ch == type_i16 || ch == type_u16
      then mapped (λ v. push (vu16 v)) (decode_int 2 c)
      else if ch == type_i32 || ch == type_u32
      then mapped (λ v. push (vu32 v)) (decode_32 c)
      else if ch == type_float
      then mapped (λ v. push (vfloat v)) (decode_int 4 c)
      else if ch == type_i64 || ch == type_u64
      then mapped (λ v. push (vu64 v)) (decode_64 c)
      else if ch == type_double
      then mapped (λ v. push (vdouble v)) (decode_int 8 c)
      else if ch == type_ptr
      then mapped (λ v. push (vptr v)) (decode_ptr c)
      else if ch == type_lit
      then mapped (λ v. push (vlit v)) (decode_ptr c)
      else if ch == type_strcp || ch == type_memcp
      then mapped (λ v. push (vstrcp v)) (decode_strcp c)
      else if ch == type_strref || ch == type_memref
      then mapped (λ v. push_ref v.0 v.1) (decode_strref c)
      else if ch == type_refdtor
      then mapped set_refdtor (decode_refdtor c)
      else if ch == type_obj
      then mapped (λ v. push (vobj v.0 v.1)) (decode_obj c)
      else if ch == type_obj_ctx
      then mapped push (decode_obj_ctx c)
      else if ch == type_obj_flag
      then mapped push (decode_obj_flag c)
      else err invalid

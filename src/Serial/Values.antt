-- ===== src/Serial/Values.antt =====
-- The values that cross the log queue: include/malc/impl/common.h, src/malc/log_entry.h.
use mini_async_log_c.Common.{ℕ, ◌^◌, ◌<◌, Bool, List, length, All}
use mini_async_log_c.Common.Bytes.{IsByte}

-- The build options that the code is compiled under: MALC_BUILTIN_COMPRESSION, and
-- MALC_PTR_BYTE_COUNT (8 less the bytes cut). The target is little endian with 8-byte pointers.
pub record Build : Type 0 where
  pub compression : Bool
  pub ptr_bytes : ℕ

-- `malc_const_entry`. The strings are without their terminating 0.
pub record ConstEntry : Type 0 where
  pub format : List ℕ
  pub severity : ℕ
  pub types : List ℕ
  pub compressed_count : ℕ

-- What the pointers to constants lead to: the entries, and `malc_obj_table::obj_sizeof`.
pub record StaticData : Type 0 where
  pub const_entry : ℕ → ConstEntry
  pub obj_sizeof : ℕ → ℕ

-- A value of the compressed wire types, `malc_compressed_32` and `malc_compressed_64`.
pub record Compressed : Type 0 where
  pub v : ℕ
  pub format_nibble : ℕ

-- A value handed to the serializer. A signed integer or a float is its bit pattern, a pointer its
-- address; `strcp` and `memcp` carry the bytes that are copied.
pub data Value : Type 0 where
  i8 u8 i16 u16 i32 u32 float i64 u64 double ptr lit : ℕ → Value
  strcp memcp : List ℕ → Value
  strref memref : ℕ → ℕ → Value
  refdtor : ℕ → ℕ → Value
  comp32 comp64 : Compressed → Value

-- `malc_type_ids`
abbrev pub type_i8 : ℕ
type_i8 = b'a'

abbrev pub type_u8 : ℕ
type_u8 = b'b'

abbrev pub type_i16 : ℕ
type_i16 = b'c'

abbrev pub type_u16 : ℕ
type_u16 = b'd'

abbrev pub type_i32 : ℕ
type_i32 = b'e'

abbrev pub type_u32 : ℕ
type_u32 = b'f'

abbrev pub type_float : ℕ
type_float = b'g'

abbrev pub type_i64 : ℕ
type_i64 = b'h'

abbrev pub type_u64 : ℕ
type_u64 = b'i'

abbrev pub type_double : ℕ
type_double = b'j'

abbrev pub type_ptr : ℕ
type_ptr = b'k'

abbrev pub type_lit : ℕ
type_lit = b'l'

abbrev pub type_strcp : ℕ
type_strcp = b'm'

abbrev pub type_memcp : ℕ
type_memcp = b'n'

abbrev pub type_strref : ℕ
type_strref = b'o'

abbrev pub type_memref : ℕ
type_memref = b'p'

abbrev pub type_refdtor : ℕ
type_refdtor = b'q'

abbrev pub type_obj : ℕ
type_obj = b'r'

abbrev pub type_obj_ctx : ℕ
type_obj_ctx = b't'

abbrev pub type_obj_flag : ℕ
type_obj_flag = b's'

abbrev pub type_error : ℕ
type_error = b'Z'

-- `malc_get_type_code`. Compressed values are a wire form and have no code of their own.
abbrev pub type_code : Value → ℕ
type_code (i8 v) = type_i8
type_code (u8 v) = type_u8
type_code (i16 v) = type_i16
type_code (u16 v) = type_u16
type_code (i32 v) = type_i32
type_code (u32 v) = type_u32
type_code (float v) = type_float
type_code (i64 v) = type_i64
type_code (u64 v) = type_u64
type_code (double v) = type_double
type_code (ptr v) = type_ptr
type_code (lit v) = type_lit
type_code (strcp bs) = type_strcp
type_code (memcp bs) = type_memcp
type_code (strref p n) = type_strref
type_code (memref p n) = type_memref
type_code (refdtor f c) = type_refdtor
type_code (comp32 c) = type_error
type_code (comp64 c) = type_error

-- The value has its C type's range; what the client passes is never in a wire form.
abbrev pub Fits : Build → Value → Type 0
Fits b (i8 v) = v < 256
Fits b (u8 v) = v < 256
Fits b (i16 v) = v < 2 ^ 16
Fits b (u16 v) = v < 2 ^ 16
Fits b (i32 v) = v < 2 ^ 32
Fits b (u32 v) = v < 2 ^ 32
Fits b (float v) = v < 2 ^ 32
Fits b (i64 v) = v < 2 ^ 64
Fits b (u64 v) = v < 2 ^ 64
Fits b (double v) = v < 2 ^ 64
Fits b (ptr v) = v < 256 ^ b.ptr_bytes
Fits b (lit v) = v < 256 ^ b.ptr_bytes
Fits b (strcp bs) = (length bs < 2 ^ 16) × All IsByte bs
Fits b (memcp bs) = (length bs < 2 ^ 16) × All IsByte bs
Fits b (strref p n) = (p < 256 ^ b.ptr_bytes) × (n < 2 ^ 16)
Fits b (memref p n) = (p < 256 ^ b.ptr_bytes) × (n < 2 ^ 16)
Fits b (refdtor f c) = (f < 256 ^ b.ptr_bytes) × (c < 256 ^ b.ptr_bytes)
Fits b (comp32 c) = ⊥
Fits b (comp64 c) = ⊥

-- `log_argument`, the member that the deserializer fills. For the copied types it is the text or
-- memory that the pointer and the length denote.
pub data LogArgument : Type 0 where
  vu8 vu16 vu32 vfloat vu64 vdouble vptr vlit : ℕ → LogArgument
  vstrcp : List ℕ → LogArgument
  vstrref : ℕ → ℕ → LogArgument
  vobj : ℕ → List ℕ → LogArgument
  vobjctx vobjflag : ℕ → ℕ → List ℕ → LogArgument

-- `malc_ref`
pub record MalcRef : Type 0 where
  pub ref : ℕ
  pub size : ℕ

-- `malc_refdtor`
pub record RefDtor : Type 0 where
  pub func : ℕ
  pub context : ℕ

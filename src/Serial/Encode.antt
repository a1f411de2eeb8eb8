-- ===== src/Serial/Encode.antt =====
-- The producer's side: `malc_transform*`, `malc_size*` and `malc_serialize*` of
-- include/malc/impl/serialization.h, and the `serializer` of src/malc/serialization.c.
use mini_async_log_c.Common.{ℕ, ◌+◌, Bool, List, [], ◌∷◌, ◌++◌, if◌then◌else◌, length, replicate}
use mini_async_log_c.Common.Bytes.{le_bytes}
use mini_async_log_c.Common.BaseLibrary.{IntegerMath}
use mini_async_log_c.Serial.Values.{
  Build, ConstEntry, Compressed, Value, i8, u8, i16, u16, i32, u32, float, i64, u64, double, ptr,
  lit, strcp, memcp, strref, memref, refdtor, comp32, comp64,
}
use mini_async_log_c.Serial.Compress.{
  compressed_get_size, get_compressed_u, get_compressed_i, or_nibble, comp_bytes,
}

-- `malc_serializer`: the memory behind the node as the bytes that stand before the header of
-- nibbles, the header, and the bytes written behind it, where `field_mem` points to their end.
pub record Serializer : Type 0 where
  pub before : List ℕ
  pub compressed_header : List ℕ
  pub compressed_header_idx : ℕ
  pub field_mem : List ℕ

-- `serializer` of src/malc/serialization.h; `t` is in the form that it is serialized in.
pub record EntrySerializer : Type 0 where
  pub entry : ℕ
  pub has_tstamp : Bool
  pub t : Value
  pub internal_fields_size : ℕ
  pub comp_hdr_size : ℕ

abbrev pub image : Serializer → List ℕ
image s = s.before ++ (s.compressed_header ++ s.field_mem)

abbrev pub put_bytes : Serializer → List ℕ → Serializer
put_bytes s bs = record s { field_mem = s.field_mem ++ bs }

-- `malc_serialize_comp32` and `malc_serialize_comp64`
unfoldable pub serialize_comp : Serializer → Compressed → Serializer
serialize_comp s c = record s {
  compressed_header = or_nibble s.compressed_header s.compressed_header_idx c.format_nibble;
  compressed_header_idx = s.compressed_header_idx + 1;
  field_mem = s.field_mem ++ comp_bytes (compressed_get_size c.format_nibble) 0 c.v;
}

module _ (b : Build) where
  -- The bytes of each type that is copied as it stands.
  unfoldable pub plain_bytes : Value → List ℕ
  plain_bytes (i8 v) = le_bytes 1 v
  plain_bytes (u8 v) = le_bytes 1 v
  plain_bytes (i16 v) = le_bytes 2 v
  plain_bytes (u16 v) = le_bytes 2 v
  plain_bytes (i32 v) = le_bytes 4 v
  plain_bytes (u32 v) = le_bytes 4 v
  plain_bytes (float v) = le_bytes 4 v
  plain_bytes (i64 v) = le_bytes 8 v
  plain_bytes (u64 v) = le_bytes 8 v
  plain_bytes (double v) = le_bytes 8 v
  plain_bytes (ptr v) = le_bytes b.ptr_bytes v
  plain_bytes (lit v) = le_bytes b.ptr_bytes v
  plain_bytes (strcp bs) = le_bytes 2 (length bs) ++ bs
  plain_bytes (memcp bs) = le_bytes 2 (length bs) ++ bs
  plain_bytes (strref p n) = le_bytes 2 n ++ le_bytes b.ptr_bytes p
  plain_bytes (memref p n) = le_bytes 2 n ++ le_bytes b.ptr_bytes p
  plain_bytes (refdtor f c) = le_bytes b.ptr_bytes f ++ le_bytes b.ptr_bytes c
  plain_bytes (comp32 c) = []
  plain_bytes (comp64 c) = []

  -- `malc_serialize`
  unfoldable pub serialize : Serializer → Value → Serializer
  serialize s (comp32 c) = serialize_comp s c
  serialize s (comp64 c) = serialize_comp s c
  serialize s v = put_bytes s (plain_bytes v)

  -- `malc_type_size`
  unfoldable pub type_size : Value → ℕ
  type_size (i8 v) = 1
  type_size (u8 v) = 1
  type_size (i16 v) = 2
  type_size (u16 v) = 2
  type_size (i32 v) = 4
  type_size (u32 v) = 4
  type_size (float v) = 4
  type_size (i64 v) = 8
  type_size (u64 v) = 8
  type_size (double v) = 8
  type_size (ptr v) = b.ptr_bytes
  type_size (lit v) = b.ptr_bytes
  type_size (strcp bs) = 2 + length bs
  type_size (memcp bs) = 2 + length bs
  type_size (strref p n) = b.ptr_bytes + 2
  type_size (memref p n) = b.ptr_bytes + 2
  type_size (refdtor f c) = b.ptr_bytes + b.ptr_bytes
  type_size (comp32 c) = compressed_get_size c.format_nibble
  type_size (comp64 c) = compressed_get_size c.format_nibble

  module _ (im : IntegerMath) where
    -- The integers of 32 and 64 bits under MALC_BUILTIN_COMPRESSION; all else goes through.
    unfoldable pub compress : Value → Value
    compress (i32 v) = comp32 (get_compressed_i im 32 v)
    compress (u32 v) = comp32 (get_compressed_u im v)
    compress (i64 v) = comp64 (get_compressed_i im 64 v)
    compress (u64 v) = comp64 (get_compressed_u im v)
    compress v = v

    -- `malc_type_transform`
    unfoldable pub transform : Value → Value
    unfolding compress
    transform v = if b.compression then compress v else v

    -- The payload that the log macros ask for, and their serialization of all the arguments.
    unfoldable pub payload_size : List Value → ℕ
    payload_size [] = 0
    payload_size (v ∷ vs) = type_size (transform v) + payload_size vs

    unfoldable pub serialize_all : Serializer → List Value → Serializer
    serialize_all s [] = s
    serialize_all s (v ∷ vs) = serialize_all (serialize s (transform v)) vs

    -- `serializer_init` without compression. The clock's reading `now` is an argument.
    unfoldable pub init_plain : ℕ → Bool → ℕ → EntrySerializer
    init_plain entry has_tstamp now = record {
      entry = entry;
      has_tstamp = has_tstamp;
      t = u64 now;
      internal_fields_size = b.ptr_bytes + (if has_tstamp then 8 else 0);
      comp_hdr_size = 0;
    }

    -- `serializer_init` with compression.
    unfoldable pub init_compressed : ConstEntry → ℕ → Bool → ℕ → EntrySerializer
    init_compressed e entry has_tstamp now =
        let t = get_compressed_u im now in
        record {
          entry = entry;
          has_tstamp = has_tstamp;
          t = comp64 t;
          internal_fields_size =
              b.ptr_bytes + (if has_tstamp then compressed_get_size t.format_nibble + 1 else 0);
          comp_hdr_size = im.div_ceil (e.compressed_count + (if has_tstamp then 1 else 0)) 2;
        }

    unfoldable pub serializer_init : ConstEntry → ℕ → Bool → ℕ → EntrySerializer
    unfolding init_plain init_compressed
    serializer_init e entry has_tstamp now =
        if b.compression
        then init_compressed e entry has_tstamp now
        else init_plain entry has_tstamp now

    -- `serializer_log_entry_size`
    unfoldable pub log_entry_size : EntrySerializer → ℕ → ℕ
    log_entry_size se payload =
        payload + ((if b.compression then se.comp_hdr_size else 0) + se.internal_fields_size)

    -- `serializer_prepare_external_serializer`
    unfoldable pub prepare_external : EntrySerializer → Serializer
    unfolding serialize
    prepare_external se =
        let start : Serializer = record {
          before = le_bytes b.ptr_bytes se.entry;
          compressed_header = if b.compression then replicate se.comp_hdr_size 0 else [];
          compressed_header_idx = 0;
          field_mem = [];
        } in
        if se.has_tstamp then serialize start se.t else start

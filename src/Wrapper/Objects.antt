-- ===== src/Wrapper/Objects.antt =====
-- The objects of the C++ interface as bytes: `obj_types_base` of include/malcpp/impl/c++11_std_types.hpp, and
-- their reading by src/malc/serialization.c.
use mini_async_log_c.Common.{
  ℕ, ◌+◌, ◌^◌, ◌<◌, ◌≡◌, refl, ap, ◌∙◌, List, ◌++◌, append_assoc, length, length-append, ok, arith,
}
use mini_async_log_c.Common.Bytes.{le_bytes, length-le_bytes}
use mini_async_log_c.Serial.Values.{
  Build, StaticData, LogArgument, vobj, vobjctx, vobjflag, type_obj, type_obj_ctx, type_obj_flag,
  ptr, u8,
}
use mini_async_log_c.Serial.Encode.{Serializer, put_bytes, plain_bytes, serialize, type_size}
use mini_async_log_c.Serial.Decode.{
  push, decode_ptr, decode_obj, decode_obj_ctx, decode_obj_flag, decode_arg,
}
use mini_async_log_c.Serial.Decode.Laws.{cursor, decode_span-append, decode_int-le_bytes}

-- What a call passes: the table, and the bytes of the copy of the object. `raw_object`,
-- `raw_object_w_context` and `raw_object_w_flag`.
pub data RawObject : Type 0 where
  raw_object : ℕ → List ℕ → RawObject
  raw_object_w_context raw_object_w_flag : ℕ → List ℕ → ℕ → RawObject

-- `wire_raw_object`, and the types on it.
pub record WireRawObject : Type 0 where
  pub table : ℕ
  pub storage : List ℕ

pub data WireObject : Type 0 where
  wire : WireRawObject → WireObject
  wire_w_context wire_w_flag : WireRawObject → ℕ → WireObject

abbrev pub filled : ℕ → List ℕ → WireRawObject
filled table bytes = record { table = table; storage = bytes }

-- `fill_serializable` on a new object, whose context holds what was in its memory: where there is a
-- context, it overwrites the table.
unfoldable pub fill_serializable : ℕ → RawObject → WireObject
fill_serializable memory (raw_object table bytes) = wire (filled table bytes)
fill_serializable memory (raw_object_w_context table bytes context) =
    wire_w_context (record (filled table bytes) { table = context }) memory
fill_serializable memory (raw_object_w_flag table bytes flag) =
    wire_w_flag (filled table bytes) flag

abbrev pub object_type_id : RawObject → ℕ
object_type_id (raw_object table bytes) = type_obj
object_type_id (raw_object_w_context table bytes context) = type_obj_ctx
object_type_id (raw_object_w_flag table bytes flag) = type_obj_flag

joined : (xs ys zs ws : List ℕ) → ((xs ++ ys) ++ zs) ++ ws ≡ xs ++ (ys ++ (zs ++ ws))
joined xs ys zs ws = simp append_assoc

module _ (b : Build) where
  -- `size`
  unfoldable pub raw_size : WireRawObject → ℕ
  unfolding type_size
  raw_size w = type_size b (ptr w.table) + length w.storage

  unfoldable pub wire_size : WireObject → ℕ
  unfolding raw_size type_size
  wire_size (wire w) = raw_size w
  wire_size (wire_w_context w context) = raw_size w + type_size b (ptr context)
  wire_size (wire_w_flag w flag) = raw_size w + type_size b (u8 flag)

  unfoldable pub raw_serialize : Serializer → WireRawObject → Serializer
  unfolding serialize plain_bytes
  raw_serialize s w = put_bytes (serialize b s (ptr w.table)) w.storage

  unfoldable pub do_serialize : Serializer → WireObject → Serializer
  unfolding raw_serialize serialize plain_bytes
  do_serialize s (wire w) = raw_serialize s w
  do_serialize s (wire_w_context w context) = raw_serialize (serialize b s (ptr context)) w
  do_serialize s (wire_w_flag w flag) = raw_serialize (serialize b s (u8 flag)) w

  -- The bytes that are appended.
  abbrev raw_image : WireRawObject → List ℕ
  raw_image w = le_bytes b.ptr_bytes w.table ++ w.storage

  abbrev wire_image : WireObject → List ℕ
  wire_image (wire w) = raw_image w
  wire_image (wire_w_context w context) = le_bytes b.ptr_bytes context ++ raw_image w
  wire_image (wire_w_flag w flag) = le_bytes 1 flag ++ raw_image w

  do_serialize-image :
      (s : Serializer) (w : WireObject) → do_serialize s w ≡ put_bytes s (wire_image w)
  unfolding do_serialize raw_serialize serialize plain_bytes
  do_serialize-image s (wire w) =
      ap (λ m. record s { field_mem = m })
        (append_assoc s.field_mem (le_bytes b.ptr_bytes w.table) w.storage)
  do_serialize-image s (wire_w_context w context) =
      ap (λ m. record s { field_mem = m })
        (joined s.field_mem (le_bytes b.ptr_bytes context) (le_bytes b.ptr_bytes w.table) w.storage)
  do_serialize-image s (wire_w_flag w flag) =
      ap (λ m. record s { field_mem = m })
        (joined s.field_mem (le_bytes 1 flag) (le_bytes b.ptr_bytes w.table) w.storage)

  length-raw_image : (w : WireRawObject) → length (raw_image w) ≡ raw_size w
  unfolding raw_size type_size
  length-raw_image w =
      length-append (le_bytes b.ptr_bytes w.table) w.storage
      ∙ ap (λ n. n + length w.storage) (length-le_bytes b.ptr_bytes w.table)

  length-wire_image : (w : WireObject) → length (wire_image w) ≡ wire_size w
  unfolding wire_size type_size
  length-wire_image (wire w) = length-raw_image w
  length-wire_image (wire_w_context w context) = omega (
    arith,
    length-append (le_bytes b.ptr_bytes context) (raw_image w),
    length-le_bytes b.ptr_bytes context,
    length-raw_image w,
  )
  length-wire_image (wire_w_flag w flag) = omega (
    arith,
    length-append (le_bytes 1 flag) (raw_image w),
    length-le_bytes 1 flag,
    length-raw_image w,
  )

  -- The numbers are in the range of their types, and the table that is read has the size of the
  -- object.
  abbrev IsReadable : StaticData → WireRawObject → Type 0
  IsReadable static w =
      (w.table < 256 ^ b.ptr_bytes) × (length w.storage ≡ static.obj_sizeof w.table)

  abbrev pub IsWireReadable : StaticData → WireObject → Type 0
  IsWireReadable static (wire w) = IsReadable static w
  IsWireReadable static (wire_w_context w context) =
      IsReadable static w × (context < 256 ^ b.ptr_bytes)
  IsWireReadable static (wire_w_flag w flag) = IsReadable static w × (flag < 256)

  -- The argument that is read.
  abbrev pub read_back : ℕ → RawObject → LogArgument
  read_back memory (raw_object table bytes) = vobj table bytes
  read_back memory (raw_object_w_context table bytes context) = vobjctx memory context bytes
  read_back memory (raw_object_w_flag table bytes flag) = vobjflag flag table bytes

  module _ (static : StaticData) (h : List ℕ) (i : ℕ) where
    decode_obj-image :
        (w : WireRawObject) (rest : List ℕ)
        → IsReadable static w
        → decode_obj b static (cursor h i (raw_image w ++ rest))
          ≡ ok ((w.table, w.storage), cursor h i rest)
    unfolding decode_obj decode_ptr
    decode_obj-image w rest (small, size) =
        rw
          (
            append_assoc (le_bytes b.ptr_bytes w.table) w.storage rest,
            decode_int-le_bytes h i b.ptr_bytes w.table (w.storage ++ rest) small,
            decode_span-append h i (static.obj_sizeof w.table) w.storage rest size,
          )
          refl

    decode_arg-image :
        (memory : ℕ) (o : RawObject) (rest : List ℕ)
        → IsWireReadable static (fill_serializable memory o)
        → decode_arg b static
            (object_type_id o)
            (cursor h i (wire_image (fill_serializable memory o) ++ rest))
          ≡ ok (push (read_back memory o), cursor h i rest)
    unfolding decode_arg fill_serializable decode_obj_ctx decode_obj_flag decode_ptr
    decode_arg-image memory (raw_object table bytes) rest r =
        rw (decode_obj-image (filled table bytes) rest r) refl
    decode_arg-image memory (raw_object_w_context table bytes context) rest (r, m) =
        rw
          (
            append_assoc (le_bytes b.ptr_bytes memory) (raw_image (filled context bytes)) rest,
            decode_int-le_bytes h i b.ptr_bytes memory (raw_image (filled context bytes) ++ rest) m,
            decode_obj-image (filled context bytes) rest r,
          )
          refl
    decode_arg-image memory (raw_object_w_flag table bytes flag) rest (r, m) =
        rw
          (
            append_assoc (le_bytes 1 flag) (raw_image (filled table bytes)) rest,
            decode_int-le_bytes h i 1 flag (raw_image (filled table bytes) ++ rest)
                (omega (arith, m)),
            decode_obj-image (filled table bytes) rest r,
          )
          refl

  -- An object of the C++ interface takes the bytes that its size says, and the deserializer reads
  -- them back: the table, the bytes of the object and the flag of a call. Of an object with a
  -- context, though, it reads the context as the table, and as the context what was in the memory
  -- of the object before it was filled. The numbers are in the range of their types, and what is
  -- read as the table has the size of the object.
  pub decode_arg-do_serialize :
      (static : StaticData) (s : Serializer) (memory : ℕ) (o : RawObject) (h : List ℕ) (i : ℕ)
      (rest : List ℕ)
      → IsWireReadable static (fill_serializable memory o)
      → (bytes : List ℕ) × (do_serialize s (fill_serializable memory o) ≡ put_bytes s bytes)
        × (length bytes ≡ wire_size (fill_serializable memory o))
        × (decode_arg b static (object_type_id o) (cursor h i (bytes ++ rest))
            ≡ ok (push (read_back memory o), cursor h i rest))
  decode_arg-do_serialize static s memory o h i rest r =
      let w = fill_serializable memory o in
      (
        wire_image w,
        do_serialize-image s w,
        length-wire_image w,
        decode_arg-image static h i memory o rest r,
      )

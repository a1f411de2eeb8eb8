-- ===== src/Tests/Objects.antt =====
-- An object of the C++ interface with a context, as its bytes.
use mini_async_log_c.Common.{ℕ, ◌≡◌, refl, false, List, [], ◌∷◌, ◌++◌, length, ok, arith}
use mini_async_log_c.Serial.Values.{Build, StaticData, vobjctx, type_obj_ctx}
use mini_async_log_c.Serial.Encode.{Serializer, put_bytes}
use mini_async_log_c.Serial.Decode.{push, decode_arg}
use mini_async_log_c.Serial.Decode.Laws.{cursor}
use mini_async_log_c.Wrapper.Objects.{
  RawObject, raw_object_w_context, fill_serializable, wire_size, do_serialize,
  decode_arg-do_serialize,
}

abbrev plain_build : Build
plain_build = record { compression = false; ptr_bytes = 8 }

abbrev object_sizes : StaticData
object_sizes = record {
  const_entry = λ p. record { format = []; severity = 54; types = []; compressed_count = 0 };
  obj_sizeof = λ t. 2;
}

abbrev no_bytes : Serializer
no_bytes = record { before = []; compressed_header = []; compressed_header_idx = 0; field_mem = [] }

-- The table 700 and the context 4096.
abbrev with_context : RawObject
with_context = raw_object_w_context 700 (1 ∷ 2 ∷ []) 4096

decode_arg-do_serialize_example :
    (bytes : List ℕ) × (do_serialize plain_build no_bytes (fill_serializable 99 with_context)
      ≡ put_bytes no_bytes bytes)
    × (length bytes ≡ wire_size plain_build (fill_serializable 99 with_context))
    × (decode_arg plain_build object_sizes type_obj_ctx (cursor [] 0 (bytes ++ (5 ∷ [])))
        ≡ ok (push (vobjctx 99 4096 (1 ∷ 2 ∷ [])), cursor [] 0 (5 ∷ [])))
unfolding fill_serializable
decode_arg-do_serialize_example =
    decode_arg-do_serialize plain_build object_sizes no_bytes 99 with_context [] 0 (5 ∷ [])
      ((omega arith, refl), omega arith)

-- ===== src/LogCall/Cpp.antt =====
-- The call of a log macro in C++: `log`, `arg_ops` and `MALC_LOG_IF_PRIVATE` of
-- include/malcpp/impl/c++11.hpp, for arguments that are not objects.
use mini_async_log_c.Common.{
  ℕ, ◌+◌, ◌%◌, ◌^◌, Bool, false, ◌&&◌, not, Option, none, some, List, [], ◌∷◌, ◌++◌, map,
  if◌then◌else◌, ltb, leb, ◌==◌, length, Result, ok, err,
}
use mini_async_log_c.Common.BaseLibrary.{IntegerMath}
use mini_async_log_c.Serial.Values.{
  Build, ConstEntry, Value, strref, memref, refdtor, MalcRef, RefDtor,
}
use mini_async_log_c.Serial.Wire.{compress_count}
use mini_async_log_c.Serial.Encode.{Serializer, serialize, type_size, transform}
use mini_async_log_c.Memory.Bounded.{Mpmc}
use mini_async_log_c.Memory.Sources.{Memory}
use mini_async_log_c.EntryParser.Entry.{Freed, refdtor_call}
use mini_async_log_c.Validation.LoggedTypes.{LoggedType, type_id}
use mini_async_log_c.Validation.{success_with_refs, code, validate, validate_references}
use mini_async_log_c.Validation.Report.{static_arg_validation}
use mini_async_log_c.Logger.{State, Prepared, log_entry_prepare}
use mini_async_log_c.LogCall.{Called}

-- `count_compressed`: the count has 16 bits.
unfoldable pub count_compressed : Build → List ℕ → ℕ → ℕ
unfolding compress_count
count_compressed b [] current = current
count_compressed b (ch ∷ types) current =
    let rest = count_compressed b types ((current + compress_count b ch) % 2 ^ 16) in
    if b.compression then rest else 0

-- `msgdata`, with the string of `info::generate`.
unfoldable pub msgdata : Build → ℕ → List ℕ → List LoggedType → ConstEntry
unfolding count_compressed
msgdata b sev format types = record {
  format = format;
  severity = sev % 2 ^ 8;
  types = map type_id types;
  compressed_count = count_compressed b (map type_id types) 0;
}

-- The last of `arg_ops::try_deallocate_refvalues`.
unfoldable pub run_refdtor : Option RefDtor → List MalcRef → List Freed
run_refdtor none refs = []
run_refdtor (some d) refs =
    if ltb 0 (length refs) && not (d.func == 0) then refdtor_call d.func d.context refs ∷ [] else []

-- `arg_ops::try_deallocate_refvalues`: each argument replaces the destructor.
unfoldable pub try_deallocate_refvalues : Option RefDtor → List MalcRef → List Value → List Freed
unfolding run_refdtor
try_deallocate_refvalues dtor refs [] = run_refdtor dtor refs
try_deallocate_refvalues dtor refs (strref p n ∷ vs) =
    try_deallocate_refvalues none (refs ++ (record { ref = p; size = n } ∷ [])) vs
try_deallocate_refvalues dtor refs (memref p n ∷ vs) =
    try_deallocate_refvalues none (refs ++ (record { ref = p; size = n } ∷ [])) vs
try_deallocate_refvalues dtor refs (refdtor f c ∷ vs) =
    try_deallocate_refvalues (some (record { func = f; context = c })) refs vs
try_deallocate_refvalues dtor refs (_ ∷ vs) = try_deallocate_refvalues none refs vs

-- `deallocate_refs` and `deallocate_refs_tuple`
unfoldable pub deallocate_refs : Bool → List Value → List Freed
unfolding try_deallocate_refvalues
deallocate_refs has_refs values = if has_refs then try_deallocate_refvalues none [] values else []

-- `has_references` of a call that compiles.
unfoldable pub has_references : List LoggedType → List ℕ → Bool
unfolding static_arg_validation validate_references validate
has_references types format =
    elim (static_arg_validation (validate_references types) (validate types format)) [
      | none ↦ false
      | some c ↦ c == code success_with_refs
    ]

module _ (b : Build) where
  -- `arg_ops::get_payload_size` and `arg_ops::serialize`, on the values of `to_serializable`.
  unfoldable pub get_payload_size : List Value → ℕ
  unfolding type_size
  get_payload_size [] = 0
  get_payload_size (v ∷ vs) = type_size b v + get_payload_size vs

  unfoldable pub serialize_values : Serializer → List Value → Serializer
  unfolding serialize
  serialize_values s [] = s
  serialize_values s (v ∷ vs) = serialize_values (serialize b s v) vs

  module _ (im : IntegerMath) (q : Mpmc) (sizeof_qnode : ℕ) where
    -- `log` behind `malc_log_entry_prepare`.
    unfoldable pub finish :
        Bool → List Value → Option (Memory q × Result Prepared) → Option (Called q)
    unfolding serialize_values deallocate_refs
    finish has_refs values none = none
    finish has_refs values (some (m, err e)) = some (record {
      mem = m;
      committed = none;
      result = err e;
      freed = deallocate_refs has_refs values;
    })
    finish has_refs values (some (m, ok p)) = some (record {
      mem = m;
      committed = some (record p { ext_ser = serialize_values p.ext_ser values });
      result = ok tt;
      freed = [];
    })

    unfoldable pub log :
        Bool
        → ConstEntry
        → ℕ
        → State
        → Memory q
        → ℕ
        → (ℕ → Option ℕ)
        → Bool
        → ℕ
        → List Value
        → Option (Called q)
    unfolding finish log_entry_prepare get_payload_size transform
    log has_refs en entry state m current bl_alloc timestamp now vs =
        let values = map (transform b im) vs in
        finish has_refs values (
          log_entry_prepare b im q sizeof_qnode state m current bl_alloc en entry timestamp now
            (get_payload_size values))

    -- `MALC_LOG_IF_PRIVATE`
    unfoldable pub log_if :
        Bool
        → ℕ
        → ℕ
        → List ℕ
        → List LoggedType
        → ℕ
        → State
        → Memory q
        → ℕ
        → (ℕ → Option ℕ)
        → Bool
        → ℕ
        → List Value
        → Option (Called q)
    unfolding log msgdata has_references deallocate_refs
    log_if cond sev min_severity format types entry state m current bl_alloc timestamp now vs =
        if cond && leb min_severity sev
        then log (has_references types format) (msgdata b sev format types) entry state m current
            bl_alloc timestamp now vs
        else some (record {
          mem = m;
          committed = none;
          result = ok tt;
          freed = deallocate_refs (has_references types format) vs;
        })

-- ===== src/LogCall.antt =====
-- The call of a log macro in C: `MALC_LOG_IF_PRIVATE` of include/malc/impl/c11.h. The arguments are
-- the values that the expressions come to, since each expression is evaluated once at most; a call
-- without arguments has the empty list.
pub mod Strip
pub mod Cpp
pub mod References
pub mod Validated
pub mod Agree
pub mod Carried
pub mod Once
pub mod Delivered
use mini_async_log_c.Common.{
  ℕ, suc, ◌+◌, ◌%◌, ◌^◌, Bool, true, false, ◌&&◌, ◌||◌, not, Option, none, some, List, [], ◌∷◌,
  ◌++◌, map, if◌then◌else◌, ltb, leb, ◌==◌, Result, ok, err,
}
use mini_async_log_c.Common.BaseLibrary.{IntegerMath}
use mini_async_log_c.Serial.Values.{
  Build, ConstEntry, Value, strref, memref, refdtor, type_code, type_strref, type_memref,
  type_refdtor, MalcRef,
}
use mini_async_log_c.Serial.Wire.{total_compress_count}
use mini_async_log_c.Serial.Encode.{payload_size, serialize_all}
use mini_async_log_c.Memory.Bounded.{Mpmc}
use mini_async_log_c.Memory.Sources.{Memory}
use mini_async_log_c.EntryParser.Entry.{Freed, refdtor_call}
use mini_async_log_c.Logger.{State, Prepared, log_entry_prepare}

-- `MALC_LOG_CREATE_CONST_ENTRY`: the severity is a character, and the count has 16 bits.
unfoldable pub create_const_entry : Build → ℕ → List ℕ → List Value → ConstEntry
unfolding total_compress_count
create_const_entry b sev format vs = record {
  format = format;
  severity = sev % 2 ^ 8;
  types = map type_code vs;
  compressed_count = total_compress_count b (map type_code vs) % 2 ^ 16;
}

-- `MALC_IS_CLEANUP` and `MALC_IS_REF`
abbrev pub is_cleanup : Value → Bool
is_cleanup v = type_code v == type_refdtor

abbrev pub is_ref : Value → Bool
is_ref v = type_code v == type_strref || type_code v == type_memref

-- `MALC_GET_CLEANUP_COUNT` and `MALC_GET_REF_COUNT`
unfoldable pub get_cleanup_count : List Value → ℕ
get_cleanup_count [] = 0
get_cleanup_count (v ∷ vs) = (if is_cleanup v then 1 else 0) + get_cleanup_count vs

unfoldable pub get_ref_count : List Value → ℕ
get_ref_count [] = 0
get_ref_count (v ∷ vs) = (if is_ref v then 1 else 0) + get_ref_count vs

-- Whether the last argument, if there is one, is a destructor: `bl_pp_vargs_last`.
unfoldable pub last_is_cleanup : List Value → Bool
last_is_cleanup [] = false
last_is_cleanup (v ∷ []) = is_cleanup v
last_is_cleanup (v ∷ w ∷ vs) = last_is_cleanup (w ∷ vs)

-- `MALC_LOG_VALIDATE_REF_AND_CLEANUP`: the two assertions.
unfoldable pub validate_ref_and_cleanup : List Value → Bool
unfolding get_cleanup_count get_ref_count last_is_cleanup
validate_ref_and_cleanup vs =
    let cleanups = get_cleanup_count vs in
    let refs = get_ref_count vs in
    ((cleanups == 0 && refs == 0) || (cleanups == 1 && not (refs == 0)))
    && (cleanups == 0 || last_is_cleanup vs)

-- `MALC_LOG_FILL_REF_ARRAY`: the array up to its index, which grows at a reference.
unfoldable pub fill_ref_array : List MalcRef → List Value → List MalcRef
fill_ref_array refs [] = refs
fill_ref_array refs (strref p n ∷ vs) =
    fill_ref_array (refs ++ (record { ref = p; size = n } ∷ [])) vs
fill_ref_array refs (memref p n ∷ vs) =
    fill_ref_array (refs ++ (record { ref = p; size = n } ∷ [])) vs
fill_ref_array refs (_ ∷ vs) = fill_ref_array refs vs

-- `MALC_LOG_REF_ARRAY_DEALLOC`: the calls of destructors.
unfoldable pub ref_array_dealloc : List MalcRef → List Value → List Freed
ref_array_dealloc refs [] = []
ref_array_dealloc refs (refdtor f c ∷ vs) = refdtor_call f c refs ∷ ref_array_dealloc refs vs
ref_array_dealloc refs (_ ∷ vs) = ref_array_dealloc refs vs

-- What is done where the entry does not go to the logger.
unfoldable pub deallocate_in_place : List Value → List Freed
unfolding get_ref_count fill_ref_array ref_array_dealloc
deallocate_in_place vs =
    if ltb 0 (get_ref_count vs) then ref_array_dealloc (fill_ref_array [] vs) vs else []

-- What a call leaves: the memory, the entry that is committed to the queue, the result, and the
-- destructors that the call ran itself.
pub record Called (q : Mpmc) : Type 0 where
  pub mem : Memory q
  pub committed : Option Prepared
  pub result : Result (Unit {0})
  pub freed : List Freed

-- What a call does with `malc_log_entry_prepare` and the values: the condition, the severity and
-- that of `malc_get_min_severity`, the state and the memory of the logger, the constants with their
-- address, and the time.
module _ (b : Build) (im : IntegerMath) (q : Mpmc) (sizeof_qnode : ℕ) where
  -- Behind `malc_log_entry_prepare`: the values are serialized and the entry is committed.
  unfoldable pub commit : List Value → Option (Memory q × Result Prepared) → Option (Called q)
  unfolding serialize_all deallocate_in_place
  commit vs none = none
  commit vs (some (m, err e)) =
      some (record { mem = m; committed = none; result = err e; freed = deallocate_in_place vs })
  commit vs (some (m, ok p)) = some (record {
    mem = m;
    committed = some (record p { ext_ser = serialize_all b im p.ext_ser vs });
    result = ok tt;
    freed = [];
  })

  -- `MALC_LOG_IF_PRIVATE`
  unfoldable pub log_if_private :
      Bool
      → ℕ
      → ℕ
      → List ℕ
      → ℕ
      → State
      → Memory q
      → ℕ
      → (ℕ → Option ℕ)
      → Bool
      → ℕ
      → List Value
      → Option (Called q)
  unfolding commit deallocate_in_place log_entry_prepare payload_size
  log_if_private cond sev min_severity format entry state m current bl_alloc timestamp now vs =
      if cond && leb min_severity sev
      then commit vs (
          log_entry_prepare b im q sizeof_qnode state m current bl_alloc
            (create_const_entry b sev format vs) entry timestamp now (payload_size b im vs))
      else some
          (record { mem = m; committed = none; result = ok tt; freed = deallocate_in_place vs })

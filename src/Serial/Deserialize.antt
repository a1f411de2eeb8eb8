-- ===== src/Serial/Deserialize.antt =====
-- The `deserializer` of src/malc/serialization.c.
use mini_async_log_c.Common.{
  ℕ, ◌+◌, Bool, List, [], ◌∷◌, ◌++◌, if◌then◌else◌, length, drop, Result, ok, err, alloc, ◌>>=◌,
}
use mini_async_log_c.Common.BaseLibrary.{IntegerMath}
use mini_async_log_c.Serial.Values.{Build, StaticData, LogArgument, vstrref, MalcRef, RefDtor}
use mini_async_log_c.Serial.Decode.{
  Cursor, Decoded, push, push_ref, set_refdtor, decode_ptr, decode_64, decode_arg,
}

-- `deserializer`. The cursor over the entry's memory lives only inside `execute`.
pub record Deserializer : Type 0 where
  pub args : List LogArgument
  pub refs : List MalcRef
  pub refdtor : RefDtor
  pub entry : ℕ
  pub t : ℕ

-- `log_entry` of src/malc/log_entry.h
pub record LogEntry : Type 0 where
  pub entry : ℕ
  pub timestamp : ℕ
  pub args : List LogArgument
  pub refs : List MalcRef
  pub refdtor : RefDtor

abbrev pub no_refdtor : RefDtor
no_refdtor = record { func = 0; context = 0 }

-- `deserializer_reset`
unfoldable pub reset : Deserializer → Deserializer
reset ds = record ds { args = []; refs = []; entry = 0; refdtor = no_refdtor }

-- `deserializer_init`: `memset`, then the two arrays, whose allocation can fail.
unfoldable pub init : Bool → Bool → Result Deserializer
init args_room refs_room =
    let zeroed : Deserializer = record {
      args = [];
      refs = [];
      refdtor = no_refdtor;
      entry = 0;
      t = 0;
    } in
    if args_room then (if refs_room then ok zeroed else err alloc) else err alloc

-- `deserializer_get_log_entry`
unfoldable pub get_log_entry : Deserializer → LogEntry
get_log_entry ds = record {
  entry = ds.entry;
  timestamp = ds.t;
  args = ds.args;
  refs = ds.refs;
  refdtor = ds.refdtor;
}

-- What the rest of the system provides: the constants in memory, the clock (`now` is
-- `bl_fast_timept_get_fast`, `to_nsec` is `bl_fast_timept_to_nsec`), and whether the allocator lets
-- an array of so many elements take one more.
pub record Env : Type 0 where
  pub static : StaticData
  pub now : ℕ
  pub to_nsec : ℕ → ℕ
  pub has_room : ℕ → Bool

module _ (b : Build) (im : IntegerMath) (env : Env) where
  -- `log_args_insert_tail`, `log_refs_insert_tail`
  unfoldable pub insert_arg : LogArgument → Deserializer → Result Deserializer
  insert_arg a ds =
      if env.has_room (length ds.args)
      then ok (record ds { args = ds.args ++ (a ∷ []) })
      else err alloc

  unfoldable pub insert_ref : MalcRef → Deserializer → Result Deserializer
  insert_ref r ds =
      if env.has_room (length ds.refs)
      then ok (record ds { refs = ds.refs ++ (r ∷ []) })
      else err alloc

  unfoldable pub store : Decoded → Deserializer → Result Deserializer
  unfolding insert_arg insert_ref
  store (push a) ds = insert_arg a ds
  store (push_ref p n) ds = do
    ds' ← insert_ref (record { ref = p; size = n }) ds
    insert_arg (vstrref p n) ds'
  store (set_refdtor r) ds = ok (record ds { refdtor = r })

  -- `while (*partype)`
  unfoldable pub decode_args : List ℕ → Cursor → Deserializer → Result Deserializer
  decode_args [] c ds = ok ds
  decode_args (ch ∷ types) c ds = do
    (d, c') ← decode_arg b env.static ch c
    ds' ← store d ds
    decode_args types c' ds'

  -- Where the header of nibbles starts, and what lies behind it.
  unfoldable pub skip_header : ℕ → Bool → Cursor → Cursor
  skip_header compressed_count has_timestamp c =
      if b.compression
      then record {
        hdr = c.mem;
        idx = 0;
        mem = drop (im.div_ceil (compressed_count + (if has_timestamp then 1 else 0)) 2) c.mem;
      }
      else c

  unfoldable pub decode_tstamp : Bool → Cursor → Result (ℕ × Cursor)
  decode_tstamp has_timestamp c =
      if has_timestamp then decode_64 b env.static c else ok (env.now, c)

  -- `deserializer_execute` on the memory behind the node. On an error the state that the failed run
  -- leaves is never read: the consumer resets it before the next entry.
  unfoldable pub execute : List ℕ → Bool → Deserializer → Result Deserializer
  execute mem has_timestamp ds = do
    (entry, c) ← decode_ptr b env.static (record { hdr = []; idx = 0; mem = mem })
    let e = env.static.const_entry entry
    (t, c') ← decode_tstamp has_timestamp (skip_header e.compressed_count has_timestamp c)
    decode_args e.types c' (record ds { entry = entry; t = env.to_nsec t })

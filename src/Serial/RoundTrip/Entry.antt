-- ===== src/Serial/RoundTrip/Entry.antt =====
-- A whole entry, from the log macros to the deserializer.
use mini_async_log_c.Common.{
  ℕ, ◌+◌, ◌*◌, ◌^◌, ◌≤◌, ◌<◌, ◌≡◌, refl, ap, ◌∙◌, Bool, true, false, if◌then◌else◌, ◌&&◌, List, [],
  ◌∷◌, ◌++◌, map, append_assoc, length, length-append, replicate, length-replicate, drop-append,
  All, ok, arith,
}
use mini_async_log_c.Common.Bytes.{le_bytes, length-le_bytes}
use mini_async_log_c.Common.BaseLibrary.{IntegerMath}
use mini_async_log_c.Serial.Values.{Build, ConstEntry, Value, u64, Fits, type_code}
use mini_async_log_c.Serial.Compress.Nibbles.{Fresh-replicate, get_nibble-append}
use mini_async_log_c.Serial.Encode.{
  Serializer, image, transform, compress, payload_size, serialize_all, serializer_init,
  log_entry_size, prepare_external, type_size,
}
use mini_async_log_c.Serial.Wire.{
  compress_count, total_compress_count, nibbles, write_nibbles, length-write_nibbles,
  write_nibbles-Reads, Reads, all_nibbles, all_bytes, args_of, refs_of, refdtor_of,
}
use mini_async_log_c.Serial.RoundTrip.Encoded.{
  serialize_all_lem, all_nibbles-AreNibbles, length-all_nibbles, length-all_bytes,
}
use mini_async_log_c.Serial.RoundTrip.Decoded.{Reads-append, collect, decode_args-all_bytes}
use mini_async_log_c.Serial.Decode.{Cursor}
use mini_async_log_c.Serial.Decode.Laws.{cursor, decode_ptr-le_bytes, decode_64-u64}
use mini_async_log_c.Serial.Deserialize.{
  Deserializer, Env, skip_header, decode_tstamp, decode_args, execute,
}

-- The timestamp is serialized like a first argument.
abbrev stamped : Bool → ℕ → List Value → List Value
stamped ts now vs = if ts then u64 now ∷ vs else vs

module _ (b : Build) (im : IntegerMath) where
  abbrev header_size : ConstEntry → Bool → ℕ
  header_size e ts =
      if b.compression then im.div_ceil (e.compressed_count + (if ts then 1 else 0)) 2 else 0

  -- What the producer writes: `serializer_init`, `serializer_prepare_external_serializer`, and the
  -- log macro's serialization of the arguments.
  abbrev pub written : ConstEntry → ℕ → Bool → ℕ → List Value → Serializer
  written e entry ts now vs =
      serialize_all b im (prepare_external b im (serializer_init b im e entry ts now)) vs

  abbrev empty : ConstEntry → ℕ → Bool → Serializer
  empty e entry ts = record {
    before = le_bytes b.ptr_bytes entry;
    compressed_header = replicate (header_size e ts) 0;
    compressed_header_idx = 0;
    field_mem = [];
  }

abbrev build : Bool → ℕ → Build
build cmp p = record { compression = cmp; ptr_bytes = p }

-- The properties of this module split on the build option, hence over its value as a variable.
module _ (im : IntegerMath) where
  written-stamped :
      (cmp : Bool) (p : ℕ) (e : ConstEntry) (entry : ℕ) (ts : Bool) (now : ℕ) (vs : List Value)
      → written (build cmp p) im e entry ts now vs
        ≡ serialize_all (build cmp p) im (empty (build cmp p) im e entry ts) (stamped ts now vs)
  unfolding serialize_all prepare_external serializer_init transform compress
  written-stamped true p e entry true now vs = refl
  written-stamped true p e entry false now vs = refl
  written-stamped false p e entry true now vs = refl
  written-stamped false p e entry false now vs = refl

  no_compress_count : (p : ℕ) (types : List ℕ) → total_compress_count (build false p) types ≡ 0
  unfolding total_compress_count compress_count
  no_compress_count p [] = refl
  no_compress_count p (ch ∷ types) = omega (arith, no_compress_count p types)

  one_stamp : (cmp : Bool) (p now : ℕ) → length (nibbles (transform (build cmp p) im (u64 now))) ≤ 1
  unfolding transform compress
  one_stamp true p now = omega arith
  one_stamp false p now = omega arith

  -- The header has room for the timestamp and for every compressed argument.
  header_room :
      (cmp : Bool) (p : ℕ) (e : ConstEntry) (ts : Bool) (now : ℕ) (vs : List Value)
      → All (Fits (build cmp p)) vs
      → now < 2 ^ 64
      → e.compressed_count ≡ total_compress_count (build cmp p) (map type_code vs)
      → length (all_nibbles (build cmp p) im (stamped ts now vs))
        ≤ header_size (build cmp p) im e ts * 2
  header_room true p e true now vs f hn hc = omega (
    arith,
    im.le-div_ceil (e.compressed_count + 1) 2 (omega arith),
    length-all_nibbles (build true p) im vs f,
    one_stamp true p now,
    length-append (nibbles (transform (build true p) im (u64 now)))
        (all_nibbles (build true p) im vs),
  )
  header_room true p e false now vs f hn hc = omega (
    arith,
    im.le-div_ceil (e.compressed_count + 0) 2 (omega arith),
    length-all_nibbles (build true p) im vs f,
  )
  header_room false p e true now vs f hn hc = omega (
    arith,
    length-all_nibbles (build false p) im (u64 now ∷ vs) (hn, f),
    no_compress_count p (map type_code (u64 now ∷ vs)),
  )
  header_room false p e false now vs f hn hc =
      omega
        (arith, length-all_nibbles (build false p) im vs f, no_compress_count p (map type_code vs))

Reads-append_right :
    (h x : List ℕ) (i : ℕ) (ns : List ℕ)
    → i + length ns ≤ length h * 2
    → Reads h i ns
    → Reads (h ++ x) i ns
Reads-append_right h x i [] room r = tt
Reads-append_right h x i (n ∷ ns) room r = (
  get_nibble-append h x i (omega arith) ∙ r.0,
  Reads-append_right h x (i + 1) ns (omega arith) r.1,
)

eq-nil : (h : List ℕ) → length h ≡ 0 → h ≡ []
eq-nil [] e = refl
eq-nil (x ∷ h) e = absurd (omega arith)

module _ (im : IntegerMath) (e : ConstEntry) (ts : Bool) where
  -- The cursor behind the header, which reads the nibbles `ns` there.
  skip_header_lem :
      (cmp : Bool) (p : ℕ) (env : Env) (h f rest ns : List ℕ)
      → length h ≡ header_size (build cmp p) im e ts
      → length ns ≤ length h * 2
      → Reads h 0 ns
      → (hdr : List ℕ) × (skip_header
            (build cmp p)
            im
            env
            e.compressed_count
            ts
            (cursor [] 0 ((h ++ f) ++ rest))
          ≡ cursor hdr 0 (f ++ rest))
        × Reads hdr 0 ns
  unfolding skip_header
  skip_header_lem true p env h f rest ns len room r = (
    (h ++ f) ++ rest,
    ap (cursor ((h ++ f) ++ rest) 0) (rw append_assoc (drop-append h (f ++ rest) _ len)),
    rw append_assoc (Reads-append_right h (f ++ rest) 0 ns (omega arith) r),
  )
  skip_header_lem false p env h f rest ns len room r =
      let nil : h ≡ [] = eq-nil h len in ([], rw nil, rw nil at r)

decode_stamped :
    (im : IntegerMath) (b : Build) (env : Env) (ts : Bool) (now : ℕ) (vs : List Value)
    (h rest : List ℕ) (ds : Deserializer)
    → ((n : ℕ) → env.has_room n ≡ true)
    → All (Fits b) vs
    → now < 2 ^ 64
    → Reads h 0 (all_nibbles b im (stamped ts now vs))
    → (c : Cursor) × (decode_tstamp b im env ts
          (cursor h 0 (all_bytes b im (stamped ts now vs) ++ rest))
        ≡ ok ((if ts then now else env.now), c))
      × (decode_args b im env (map type_code vs) c ds ≡ ok (collect vs ds))
unfolding decode_tstamp
decode_stamped im b env true now vs h rest ds room f hn r =
    let (front, back) =
      Reads-append h 0 (nibbles (transform b im (u64 now))) (all_nibbles b im vs) r in
    (
      cursor h (0 + length (nibbles (transform b im (u64 now)))) (all_bytes b im vs ++ rest),
      rw append_assoc (decode_64-u64 b im env.static h 0 (all_bytes b im vs ++ rest) now hn front),
      decode_args-all_bytes b im env room h _ vs rest ds f back,
    )
decode_stamped im b env false now vs h rest ds room f hn r = (
  cursor h 0 (all_bytes b im vs ++ rest),
  refl,
  decode_args-all_bytes b im env room h 0 vs rest ds f r,
)

stamped-Fits :
    (b : Build) (ts : Bool) (now : ℕ) (vs : List Value)
    → now < 2 ^ 64
    → All (Fits b) vs
    → All (Fits b) (stamped ts now vs)
stamped-Fits b true now vs hn f = (hn, f)
stamped-Fits b false now vs hn f = f

module _ (im : IntegerMath) (env : Env) (room : (n : ℕ) → env.has_room n ≡ true) where
  execute_cases :
      (cmp : Bool) (p : ℕ) (entry : ℕ) (ts : Bool) (now : ℕ) (vs : List Value) (rest : List ℕ)
      (ds : Deserializer)
      → All (Fits (build cmp p)) vs
      → entry < 256 ^ p
      → now < 2 ^ 64
      → (env.static.const_entry entry).types ≡ map type_code vs
      → (env.static.const_entry entry).compressed_count
        ≡ total_compress_count (build cmp p) (map type_code vs)
      → let e = env.static.const_entry entry in
        execute
          (build cmp p)
          im
          env
          (image (written (build cmp p) im e entry ts now vs) ++ rest)
          ts
          ds
        ≡ ok (
            collect vs (record ds { entry = entry; t = env.to_nsec (if ts then now else env.now) }))
  unfolding execute
  execute_cases cmp p entry ts now vs rest ds f he hn ht hc =
      let b : Build = build cmp p in
      let e : ConstEntry = env.static.const_entry entry in
      let size : ℕ = header_size b im e ts in
      let ns : List ℕ = all_nibbles b im (stamped ts now vs) in
      let h : List ℕ = write_nibbles (replicate size 0) 0 ns in
      let bs : List ℕ = all_bytes b im (stamped ts now vs) in
      let len : length h ≡ size =
        length-write_nibbles (replicate size 0) 0 ns ∙ length-replicate {A = ℕ} size 0 in
      let fits : length ns ≤ size * 2 = header_room im cmp p e ts now vs f hn hc in
      let reads : Reads h 0 ns =
        write_nibbles-Reads (replicate size 0) 0 ns (Fresh-replicate size)
          (all_nibbles-AreNibbles b im (stamped ts now vs) (stamped-Fits b ts now vs hn f))
          (omega (arith, length-replicate {A = ℕ} size 0)) in
      let (hdr, skip, kept) =
        skip_header_lem im e ts cmp p env h bs rest ns len (omega arith) reads in
      let ds' : Deserializer = record ds {
        entry = entry;
        t = env.to_nsec (if ts then now else env.now);
      } in
      let (c, first, others) = decode_stamped im b env ts now vs hdr rest ds' room f hn kept in
      rw
        (
          written-stamped im cmp p e entry ts now vs,
          serialize_all_lem b im (empty b im e entry ts) (stamped ts now vs),
          append_assoc,
          decode_ptr-le_bytes [] 0 b env.static entry ((h ++ bs) ++ rest) he,
          skip,
          first,
        )
        (ap (λ types. decode_args b im env types c ds') ht ∙ others)

  -- Serializing the arguments of an entry and deserializing the memory, whatever bytes follow up
  -- to the end of its slots, gives back the entry and every argument in order, the references and
  -- the destructor, with the producer's timestamp if there is one and else the consumer's. It
  -- holds with and without compression, for arguments in the range of their types, an entry's
  -- address in the range of a stored pointer and a timestamp below 2^64, when the entry's
  -- constants are those that the macros derive from the arguments' types and the allocator has
  -- memory.
  pub execute-written :
      (b : Build) (entry : ℕ) (ts : Bool) (now : ℕ) (vs : List Value) (rest : List ℕ)
      (ds : Deserializer)
      → All (Fits b) vs
      → entry < 256 ^ b.ptr_bytes
      → now < 2 ^ 64
      → (env.static.const_entry entry).types ≡ map type_code vs
      → (env.static.const_entry entry).compressed_count ≡ total_compress_count b (map type_code vs)
      → let e = env.static.const_entry entry in
        execute b im env (image (written b im e entry ts now vs) ++ rest) ts ds
        ≡ ok (record {
          args = ds.args ++ args_of vs;
          refs = ds.refs ++ refs_of vs;
          refdtor = refdtor_of ds.refdtor vs;
          entry = entry;
          t = env.to_nsec (if ts then now else env.now);
        })
  execute-written b = execute_cases b.compression b.ptr_bytes

stamp_size :
    (im : IntegerMath) (cmp : Bool) (p : ℕ) (e : ConstEntry) (entry : ℕ) (ts : Bool) (now : ℕ)
    (vs : List Value)
    → let b = build cmp p in
      payload_size b im (stamped ts now vs)
        + (header_size b im e ts + p)
        + (if cmp && ts then 1 else 0)
      ≡ log_entry_size b im (serializer_init b im e entry ts now) (payload_size b im vs)
unfolding log_entry_size serializer_init payload_size type_size transform compress
stamp_size im true p e entry true now vs = omega arith
stamp_size im true p e entry false now vs = omega arith
stamp_size im false p e entry true now vs = omega arith
stamp_size im false p e entry false now vs = omega arith

size_cases :
    (im : IntegerMath) (cmp : Bool) (p : ℕ) (e : ConstEntry) (entry : ℕ) (ts : Bool) (now : ℕ)
    (vs : List Value)
    → let b = build cmp p in
      length (image (written b im e entry ts now vs)) + (if cmp && ts then 1 else 0)
      ≡ log_entry_size b im (serializer_init b im e entry ts now) (payload_size b im vs)
size_cases im cmp p e entry ts now vs =
    let b : Build = build cmp p in
    let size : ℕ = header_size b im e ts in
    let ns : List ℕ = all_nibbles b im (stamped ts now vs) in
    let h : List ℕ = write_nibbles (replicate size 0) 0 ns in
    let bs : List ℕ = all_bytes b im (stamped ts now vs) in
    rw
      (
        written-stamped im cmp p e entry ts now vs,
        serialize_all_lem b im (empty b im e entry ts) (stamped ts now vs),
      )
      (omega (
        arith,
        stamp_size im cmp p e entry ts now vs,
        length-append (le_bytes p entry) (h ++ bs),
        length-append h bs,
        length-le_bytes p entry,
        length-write_nibbles (replicate size 0) 0 ns,
        length-replicate {A = ℕ} size 0,
        length-all_bytes b im (stamped ts now vs),
      ))

-- The size that is asked of the allocator for an entry, less its node, is the number of bytes that
-- the serialization then writes; only with both compression and a timestamp it is one byte more.
pub log_entry_size_exact :
    (im : IntegerMath) (b : Build) (e : ConstEntry) (entry : ℕ) (ts : Bool) (now : ℕ)
    (vs : List Value)
    → length (image (written b im e entry ts now vs)) + (if b.compression && ts then 1 else 0)
      ≡ log_entry_size b im (serializer_init b im e entry ts now) (payload_size b im vs)
log_entry_size_exact im b = size_cases im b.compression b.ptr_bytes

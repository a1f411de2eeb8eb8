-- ===== src/Serial/RoundTrip/Decoded.antt =====
-- The state of the deserializer after all the arguments.
use mini_async_log_c.Common.{
  ℕ, suc, ◌+◌, ◌≡◌, ap, ◌∙◌, true, List, [], ◌∷◌, ◌++◌, map, append_assoc, append-nil, length, All,
  ok, arith,
}
use mini_async_log_c.Common.BaseLibrary.{IntegerMath}
use mini_async_log_c.Serial.Values.{Build, Value, comp32, comp64, Fits, type_code}
use mini_async_log_c.Serial.Encode.{transform}
use mini_async_log_c.Serial.Wire.{
  nibbles, Reads, all_nibbles, all_bytes, args_of, refs_of, refdtor_of,
}
use mini_async_log_c.Serial.Decode.Laws.{cursor, decoded, decode_arg-wire_bytes}
use mini_async_log_c.Serial.Deserialize.{
  Deserializer, Env, insert_arg, insert_ref, store, decode_args,
}

pub Reads-append :
    (h : List ℕ) (i : ℕ) (ns ms : List ℕ)
    → Reads h i (ns ++ ms)
    → Reads h i ns × Reads h (i + length ns) ms
Reads-append h i [] ms r = let e : i + 0 ≡ i = omega arith in (tt, rw e r)
Reads-append h i (n ∷ ns) ms r =
    let e : i + suc (length ns) ≡ i + 1 + length ns = omega arith in
    let (front, back) = Reads-append h (i + 1) ns ms r.1 in ((r.0, front), rw e back)

abbrev pub collect : List Value → Deserializer → Deserializer
collect vs ds = record ds {
  args = ds.args ++ args_of vs;
  refs = ds.refs ++ refs_of vs;
  refdtor = refdtor_of ds.refdtor vs;
}

collect-cons :
    (b : Build) (v : Value) (vs : List Value) (ds : Deserializer)
    → Fits b v
    → collect vs (collect (v ∷ []) ds) ≡ collect (v ∷ vs) ds
collect-cons b (comp32 c) vs ds f = absurd f
collect-cons b (comp64 c) vs ds f = absurd f
collect-cons b v vs ds f = simp (append_assoc, append-nil)

module _ (b : Build) (im : IntegerMath) (env : Env) (room : (n : ℕ) → env.has_room n ≡ true) where
  store-decoded :
      (v : Value) (ds : Deserializer)
      → Fits b v
      → store b im env (decoded v) ds ≡ ok (collect (v ∷ []) ds)
  unfolding store insert_arg insert_ref
  store-decoded (comp32 c) ds f = absurd f
  store-decoded (comp64 c) ds f = absurd f
  store-decoded v ds f = simp (room, append-nil)

  pub decode_args-all_bytes :
      (h : List ℕ) (i : ℕ) (vs : List Value) (rest : List ℕ) (ds : Deserializer)
      → All (Fits b) vs
      → Reads h i (all_nibbles b im vs)
      → decode_args b im env (map type_code vs) (cursor h i (all_bytes b im vs ++ rest)) ds
        ≡ ok (collect vs ds)
  unfolding decode_args
  decode_args-all_bytes h i [] rest ds f r = simp append-nil
  decode_args-all_bytes h i (v ∷ vs) rest ds f r =
      let (front, back) = Reads-append h i (nibbles (transform b im v)) (all_nibbles b im vs) r in
      rw
        (
          append_assoc,
          decode_arg-wire_bytes b im env.static h i (all_bytes b im vs ++ rest) v f.0 front,
          store-decoded v ds f.0,
        )
        (decode_args-all_bytes h (i + length (nibbles (transform b im v))) vs rest
            (collect (v ∷ []) ds) f.1 back
          ∙ ap ok (collect-cons b v vs ds f.0))

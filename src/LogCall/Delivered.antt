-- ===== src/LogCall/Delivered.antt =====
-- A call of the C++ interface that compiles, from the macro to the consumer of src/malc/malc.c.
use mini_async_log_c.Common.{
  ℕ, ◌+◌, ◌%◌, ◌^◌, ◌<◌, ◌≡◌, ◌≢◌, refl, sym, ap, ◌∙◌, Bool, true, false, not, ◌||◌, inl, inr,
  Option, none, some, List, [], ◌∷◌, ◌++◌, if◌then◌else◌, ◌==◌, ==_ne, length, All, arith,
}
use mini_async_log_c.Common.BaseLibrary.{IntegerMath, Ringb}
use mini_async_log_c.Serial.Values.{Build, Value, Fits}
use mini_async_log_c.Serial.Encode.{image}
use mini_async_log_c.Serial.RoundTrip.Entry.{written}
use mini_async_log_c.Memory.Bounded.{Mpmc}
use mini_async_log_c.Memory.Sources.{Memory}
use mini_async_log_c.Destinations.Types.{PastEntry, is_valid_severity}
use mini_async_log_c.EntryParser.Types.{Printing}
use mini_async_log_c.EntryParser.Objects.{ObjTables}
use mini_async_log_c.EntryParser.Text.Render
use mini_async_log_c.EntryParser.Text.Render.{Format, IsFormat}
use mini_async_log_c.Validation.LoggedTypes.{LoggedType}
use mini_async_log_c.Validation.{validate, validate_references}
use mini_async_log_c.Validation.Report.{static_arg_validation}
use mini_async_log_c.Validation.Printed.{printed}
use mini_async_log_c.Validation.Aligned.{CalledWith}
use mini_async_log_c.Validation.Delivered.{
  Carries, IsCalled, paired, handed, consume_entry-delivers, consume_entry-returns,
}
use mini_async_log_c.Logger.{State, Prepared}
use mini_async_log_c.Logger.Consumer.{Node, Outside, Malc, consume_entry}
use mini_async_log_c.LogCall.{create_const_entry, Called}
use mini_async_log_c.LogCall.Cpp.{msgdata, log_if}
use mini_async_log_c.LogCall.Agree.{HasFunction, msgdata-create_const_entry, log_if-agrees}
use mini_async_log_c.LogCall.Carried.{create_const_entry-count, log_if_private-IsLeft}

length-CalledWith :
    (types : List LoggedType) (vs : List Value) → CalledWith types vs → length vs ≡ length types
length-CalledWith [] [] h = refl
length-CalledWith [] (v ∷ vs) h = absurd h
length-CalledWith (t ∷ types) [] h = absurd h
length-CalledWith (t ∷ types) (v ∷ vs) h = omega (arith, length-CalledWith types vs h.1)

-- The node of an entry that has been committed, with the bytes that stand behind it.
abbrev pub node_of : Prepared → List ℕ → Node
node_of p rest = record {
  address = p.mem;
  node = p.node;
  bytes = image p.ext_ser ++ rest;
  tls_mem = 0;
}

module _ (im : IntegerMath) (q : Mpmc) (ringb : Ringb PastEntry) (out : Printing)
    (tables : ObjTables) (sys : Outside) (b : Build) (sizeof_qnode : ℕ) where
  -- What a call that compiles has in common with the values that it passes: the entry that it commits
  -- carries them.
  log_if-Carries :
      (cond : Bool) (sev min_severity : ℕ) (types : List LoggedType) (format : List ℕ) (entry : ℕ)
      (state : State) (m : Memory q) (current : ℕ) (bl_alloc : ℕ → Option ℕ) (ts : Bool) (now c : ℕ)
      (vs : List Value) (r : Called q) (p : Prepared) (rest : List ℕ)
      → 1 + length types < 2 ^ 16
      → static_arg_validation (validate_references types) (validate types format) ≡ some c
      → CalledWith types vs
      → All HasFunction vs
      → sys.env.static.const_entry entry ≡ msgdata b sev format types
      → log_if b im q sizeof_qnode cond sev min_severity format types entry state m current bl_alloc
          ts now vs
        ≡ some r
      → r.committed ≡ some p
      → Carries im q ringb out tables sys b (node_of p rest) entry ts now vs rest
  log_if-Carries cond sev min_severity types format entry state m current bl_alloc ts now c vs r p
        rest few compiles called functions constants call committed =
      elim (log_if_private-IsLeft b im q sizeof_qnode cond sev min_severity format entry state m
        current bl_alloc ts now vs r
        (sym (
            log_if-agrees b im q sizeof_qnode cond sev min_severity format types entry state m
              current bl_alloc ts now c vs few compiles called functions)
          ∙ call)) [
            | inl (uncommitted, freed) ↦ absurd (other _ (sym uncommitted ∙ committed))
            | inr (p', is, bytes, stamp, freed) ↦
                let same : p' ≡ p = inner _ _ (sym is ∙ committed) in
                (
                  ap (λ s. image s ++ rest)
                      (sym (ap (λ p. p.ext_ser) same)
                        ∙ bytes
                        ∙ ap (λ e. written b im e entry ts now vs)
                            (sym (
                              constants
                              ∙ msgdata-create_const_entry b sev format types vs called))),
                  sym (ap (λ p. p.node.has_timestamp) same) ∙ stamp,
                )
          ]
    where
      other : (p : Prepared) → none ≢ some p
      other p e = absurd (cc)

      inner : (x y : Prepared) → some x ≡ some y → x ≡ y
      inner x y e = cc

  -- The constants of the call are those of its values.
  log_if-IsCalled :
      (sev : ℕ) (types : List LoggedType) (format : List ℕ) (entry now : ℕ) (vs : List Value)
      → 1 + length types < 2 ^ 16
      → CalledWith types vs
      → All (Fits b) vs
      → entry < 256 ^ b.ptr_bytes
      → now < 2 ^ 64
      → sys.env.static.const_entry entry ≡ msgdata b sev format types
      → IsCalled im q ringb out tables sys b entry now vs
  unfolding create_const_entry
  log_if-IsCalled sev types format entry now vs few called fits address time constants =
      let is = constants ∙ msgdata-create_const_entry b sev format types vs called in
      (
        fits,
        address,
        time,
        ap (λ e. e.types) is,
        ap (λ e. e.compressed_count) is
            ∙ create_const_entry-count b sev format vs
                (omega (arith, few, length-CalledWith types vs called)),
      )

  -- A call of the C++ interface from the macro to the destinations: when the types and the format of
  -- a call compile, and the call commits an entry, the consumer comes back from its node, whatever
  -- stands behind its bytes; it prints the texts of the format with each argument of the call at
  -- its placeholder, hands this text, the severity and the time of the call to the destinations,
  -- frees the references of the call and gives back the node. The arguments are values of the
  -- types, in their range, and no object, and there are less than 2^16 - 1; the destructor that is
  -- passed is a function; the constants of the call are at the entry's address, which is not null;
  -- the severity is one, and the allocator of the deserializer has memory.
  pub log_if-delivers :
      ((n : ℕ) → sys.env.has_room n ≡ true)
      → (cond : Bool) (sev min_severity : ℕ) (types : List LoggedType) (format : List ℕ) (entry : ℕ)
        (state : State) (m : Memory q) (current : ℕ) (bl_alloc : ℕ → Option ℕ) (ts : Bool)
        (now c : ℕ) (vs : List Value) (r : Called q) (p : Prepared) (rest : List ℕ)
        (l : Malc b im q ringb out tables sys)
      → 1 + length types < 2 ^ 16
      → static_arg_validation (validate_references types) (validate types format) ≡ some c
      → CalledWith types vs
      → All HasFunction vs
      → All (Fits b) vs
      → entry < 256 ^ b.ptr_bytes
      → entry ≢ 0
      → now < 2 ^ 64
      → is_valid_severity (sev % 2 ^ 8) ≡ true
      → sys.env.static.const_entry entry ≡ msgdata b sev format types
      → log_if b im q sizeof_qnode cond sev min_severity format types entry state m current bl_alloc
          ts now vs
        ≡ some r
      → r.committed ≡ some p
      → (consume_entry b im q ringb out tables sys (node_of p rest) l ≢ none)
        × (f : Format) × IsFormat f
        × (Render.written f ≡ format)
        × (consume_entry b im q ringb out tables sys (node_of p rest) l
            ≡ handed im q ringb out tables sys b
                (node_of p rest)
                l
                entry
                (sys.env.to_nsec (if ts then now else sys.env.now))
                vs
                (printed out tables f
                  (paired im q ringb out tables sys b entry vs)
                  (record l.ep { str = [] })))
  unfolding msgdata
  log_if-delivers room cond sev min_severity types format entry state m current bl_alloc ts now c vs
        r p rest l few compiles called functions fits address not_null time severity constants call
        committed =
      let (f, is, whole, done) =
        consume_entry-delivers im q ringb out tables sys b room types c entry now vs ts rest
          (node_of p rest) l few compiles' is_called called carries valid in
      (
        consume_entry-returns im q ringb out tables sys b room types c entry now vs ts rest
            (node_of p rest) l few compiles' is_called called carries valid,
        f,
        is,
        whole ∙ ap (λ e. e.format) constants,
        done,
      )
    where
      carries : Carries im q ringb out tables sys b (node_of p rest) entry ts now vs rest
      carries =
          log_if-Carries cond sev min_severity types format entry state m current bl_alloc ts now c
            vs r p rest few compiles called functions constants call committed

      is_called : IsCalled im q ringb out tables sys b entry now vs
      is_called =
          log_if-IsCalled sev types format entry now vs few called fits address time constants

      compiles' :
          static_arg_validation
            (validate_references types)
            (validate types (sys.env.static.const_entry entry).format)
          ≡ some c
      compiles' =
          ap (λ e. static_arg_validation (validate_references types) (validate types e.format))
            constants
          ∙ compiles

      valid :
          (entry == 0 || not (is_valid_severity (sys.env.static.const_entry entry).severity))
          ≡ false
      valid = rw (==_ne not_null, ap (λ e. e.severity) constants, severity) refl

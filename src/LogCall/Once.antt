-- ===== src/LogCall/Once.antt =====
-- The references of a call of a log macro, from the call to what the consumer frees of its entry:
-- src/malc/serialization.c and src/malc/entry_parser.c.
use mini_async_log_c.Common.{
  ℕ, ◌%◌, ◌^◌, ◌<◌, ◌≡◌, ◌≢◌, refl, sym, ap, ◌∙◌, Bool, true, false, not, ◌||◌, inl, inr, ◌⊎◌,
  Option, none, some, List, [], ◌∷◌, ◌++◌, append-nil, map, if◌then◌else◌, ◌==◌, ==_ne, length, All,
  Result, ok, err, arith,
}
use mini_async_log_c.Common.BaseLibrary.{IntegerMath}
use mini_async_log_c.Serial.Values.{Build, Value, LogArgument, Fits, RefDtor, MalcRef, type_code}
use mini_async_log_c.Serial.Wire.{total_compress_count, args_of, refs_of, refdtor_of}
use mini_async_log_c.Serial.Encode.{image}
use mini_async_log_c.Serial.Deserialize.{
  Deserializer, Env, LogEntry, no_refdtor, reset, get_log_entry, execute,
}
use mini_async_log_c.Serial.RoundTrip.Entry.{execute-written, written}
use mini_async_log_c.Memory.Bounded.{Mpmc}
use mini_async_log_c.Memory.Sources.{Memory}
use mini_async_log_c.Destinations.Types.{LogStrings, is_valid_severity}
use mini_async_log_c.EntryParser.Types.{EntryParser, Printing}
use mini_async_log_c.EntryParser.Objects.{ObjTables}
use mini_async_log_c.EntryParser.Args.{is_obj}
use mini_async_log_c.EntryParser.Text.{parse_text}
use mini_async_log_c.EntryParser.Entry.{
  Freed, refdtor_call, typed, destroy_objects, free_entry_resources, get_log_strings,
}
use mini_async_log_c.Validation.Aligned.{objectless, codes_objectless}
use mini_async_log_c.Logger.{State, Prepared}
use mini_async_log_c.LogCall.{
  create_const_entry, validate_ref_and_cleanup, deallocate_in_place, Called, log_if_private,
}
use mini_async_log_c.LogCall.References.{
  HasRefs, has_refs, validated, freed_by, owed, deallocate_in_place-owed, refdtor_of-none,
  refdtor_of-last, refs_of-last, no_refs, length-refs_of,
}
use mini_async_log_c.LogCall.Agree.{HasFunction, last-HasFunction}
use mini_async_log_c.LogCall.Carried.{create_const_entry-count, log_if_private-IsLeft}

abbrev no_text : LogStrings
no_text = record { timestamp = []; sev = []; text = [] }

module _ (out : Printing) (tables : ObjTables) where
  destroy_objects-none :
      (args : List (ℕ × LogArgument))
      → All (λ a. is_obj a.0 ≡ false) args
      → destroy_objects out tables args ≡ []
  unfolding destroy_objects
  destroy_objects-none [] h = refl
  destroy_objects-none ((t, a) ∷ args) h = rw (h.0) (destroy_objects-none args h.1)

  -- The destructor of an entry with references is a function.
  HasDestructor : List Value → Type 0
  HasDestructor vs =
      ((refs_of vs ≡ []) × ((refdtor_of no_refdtor vs).func ≡ 0))
      ⊎ ((refs_of vs ≢ []) × ((refdtor_of no_refdtor vs).func ≢ 0))

  run_once :
      (d : RefDtor) (refs : List MalcRef)
      → ((refs ≡ []) × (d.func ≡ 0)) ⊎ ((refs ≢ []) × (d.func ≢ 0))
      → (if d.func == 0 then [] else refdtor_call d.func d.context refs ∷ []) ≡ freed_by d refs
  run_once d [] (inl (e, z)) = rw (z) refl
  run_once d [] (inr (ne, f)) = absurd (ne refl)
  run_once d (r ∷ refs) (inl (e, z)) = absurd (cc)
  run_once d (r ∷ refs) (inr (ne, f)) = rw (==_ne f) refl

  -- What the consumer frees of an entry is what its call owes.
  free_entry_resources-owed :
      (vs : List Value) (e : LogEntry)
      → HasDestructor vs
      → e.refs ≡ refs_of vs
      → e.refdtor ≡ refdtor_of no_refdtor vs
      → free_entry_resources out tables e (typed (map type_code vs) (args_of vs)) ≡ owed vs
  unfolding free_entry_resources HasDestructor
  free_entry_resources-owed vs e h refs d =
      rw
        (
          destroy_objects-none _ (objectless (map type_code vs) (args_of vs) (codes_objectless vs)),
          refs,
          d,
        )
        (run_once (refdtor_of no_refdtor vs) (refs_of vs) h)

  with_refs : (vs : List Value) → HasRefs vs → All HasFunction vs → HasDestructor vs
  unfolding HasDestructor
  with_refs _ (has_refs front f c no_cleanup some_ref) h = inr (
    (λ e. absurd (
        omega
          (arith, some_ref, length-refs_of front, ap length (sym (refs_of-last front f c) ∙ e)))),
    (λ e.
        last-HasFunction front f c h
          (sym (ap (λ d. d.func) (refdtor_of-last no_refdtor front f c)) ∙ e)),
  )

  has_destructor :
      (vs : List Value) → validate_ref_and_cleanup vs ≡ true → All HasFunction vs → HasDestructor vs
  unfolding HasDestructor
  has_destructor vs valid h = elim (validated vs valid) [
    | inl (no_cleanup, no_ref) ↦ inl (
      no_refs (refs_of vs) (length-refs_of vs ∙ no_ref),
      ap (λ d. d.func) (refdtor_of-none no_refdtor vs no_cleanup),
    )
    | inr refs ↦ with_refs vs refs h
  ]

  module _ (b : Build) (im : IntegerMath) (q : Mpmc) (sizeof_qnode : ℕ) (env : Env) where
    abbrev freed_read : EntryParser → Result Deserializer → Option (List Freed)
    freed_read ep (err e) = none
    freed_read ep (ok ds) =
        elim (get_log_strings out tables env.static (get_log_entry ds) no_text ep) [
          | none ↦ none
          | some parsed ↦ some parsed.freed
        ]

    -- What the consumer frees later of an entry that a call has committed, whatever stands behind its
    -- bytes, the deserializer's last entry and the parser's strings are; `none` where the parser does
    -- not return.
    abbrev pub freed_later : Deserializer → EntryParser → List ℕ → Called q → Option (List Freed)
    freed_later ds ep rest c = elim c.committed [
      | none ↦ some []
      | some p ↦
          freed_read ep (execute b im env (image p.ext_ser ++ rest) p.node.has_timestamp (reset ds))
    ]

    inner : (xs ys : List Freed) → some xs ≡ some ys → xs ≡ ys
    inner xs ys e = cc

    got_freed :
        (vs : List Value) (ep : EntryParser) (e : LogEntry) (fs : List Freed)
        → HasDestructor vs
        → (env.static.const_entry e.entry).types ≡ map type_code vs
        → (e.entry == 0 || not (is_valid_severity (env.static.const_entry e.entry).severity))
          ≡ false
        → e.args ≡ args_of vs
        → e.refs ≡ refs_of vs
        → e.refdtor ≡ refdtor_of no_refdtor vs
        → elim (get_log_strings out tables env.static e no_text ep) [
          | none ↦ none
          | some parsed ↦ some parsed.freed
        ]
          ≡ some fs
        → fs ≡ owed vs
    unfolding get_log_strings
    got_freed vs ep e fs h types valid args refs d eq =
        at
          (parse_text out tables (env.static.const_entry e.entry).format
            (typed (env.static.const_entry e.entry).types e.args) ep)
          refl
      where
        at :
            (r : Option (EntryParser × Result (Unit {0})))
            → parse_text out tables
                (env.static.const_entry e.entry).format
                (typed (env.static.const_entry e.entry).types e.args)
                ep
              ≡ r
            → fs ≡ owed vs
        at none pe = absurd (cc (rw (get_log_strings, valid, pe) at eq))
        at (some parsed) pe =
            sym (inner _ _ (rw (get_log_strings, valid, pe) at eq))
            ∙ rw (types, args) (free_entry_resources-owed vs e h refs d)

    -- The references of a call are freed once: whatever the logger is doing, the destructor that the
    -- call passes runs with all of its references in their order, either in the call, when the entry
    -- is filtered out or can not be prepared, or when the consumer has printed the entry, and never
    -- both; and no destructor runs when the call has no references. The assertions of the macro on
    -- the references hold, the destructor is a function, the arguments are in the range of their
    -- types and less than 2^16, the severity is one, the constants of the call are at the entry's
    -- address, which is not null, and the allocator has memory.
    pub log_if_private-frees_once :
        ((n : ℕ) → env.has_room n ≡ true)
        → (cond : Bool) (sev min_severity : ℕ) (format : List ℕ) (entry : ℕ) (state : State)
          (m : Memory q) (current : ℕ) (bl_alloc : ℕ → Option ℕ) (timestamp : Bool) (now : ℕ)
          (vs : List Value) (c : Called q) (ds : Deserializer) (ep : EntryParser) (rest : List ℕ)
          (fs : List Freed)
        → validate_ref_and_cleanup vs ≡ true
        → All HasFunction vs
        → All (Fits b) vs
        → length vs < 2 ^ 16
        → entry < 256 ^ b.ptr_bytes
        → entry ≢ 0
        → now < 2 ^ 64
        → is_valid_severity (sev % 2 ^ 8) ≡ true
        → env.static.const_entry entry ≡ create_const_entry b sev format vs
        → log_if_private b im q sizeof_qnode cond sev min_severity format entry state m current
            bl_alloc timestamp now vs
          ≡ some c
        → freed_later ds ep rest c ≡ some fs
        → c.freed ++ fs ≡ owed vs
    unfolding create_const_entry reset get_log_entry
    log_if_private-frees_once room cond sev min_severity format entry state m current bl_alloc
          timestamp now vs c ds ep rest fs asserted functions fits few address not_null time
          severity constants call later =
        elim (log_if_private-IsLeft b im q sizeof_qnode cond sev min_severity format entry state m
          current bl_alloc timestamp now vs c call) [
            | inl (uncommitted, freed) ↦
                rw (freed, sym (inner [] fs (rw (uncommitted) at later)))
                  (append-nil (deallocate_in_place vs) ∙ deallocate_in_place-owed vs asserted)
            | inr (p, committed, bytes, stamp, freed) ↦ rw (freed) (
                got_freed vs ep (get_log_entry read) fs (has_destructor vs asserted functions) types
                  valid refl refl refl
                  (sym (ap (freed_read ep) (executed p bytes stamp)) ∙ (rw (committed) at later)))
          ]
      where
        types : (env.static.const_entry entry).types ≡ map type_code vs
        types = ap (λ e. e.types) constants

        count :
            (env.static.const_entry entry).compressed_count
            ≡ total_compress_count b (map type_code vs)
        count =
            ap (λ e. e.compressed_count) constants ∙ create_const_entry-count b sev format vs few

        valid :
            (entry == 0 || not (is_valid_severity (env.static.const_entry entry).severity)) ≡ false
        valid = rw (==_ne not_null, ap (λ e. e.severity) constants, severity) refl

        read : Deserializer
        read = record {
          args = args_of vs;
          refs = refs_of vs;
          refdtor = refdtor_of no_refdtor vs;
          entry = entry;
          t = env.to_nsec (if timestamp then now else env.now);
        }

        executed :
            (p : Prepared)
            → p.ext_ser ≡ written b im (create_const_entry b sev format vs) entry timestamp now vs
            → p.node.has_timestamp ≡ timestamp
            → execute b im env (image p.ext_ser ++ rest) p.node.has_timestamp (reset ds) ≡ ok read
        executed p bytes stamp =
            ap (λ t. execute b im env (image p.ext_ser ++ rest) t (reset ds)) stamp
            ∙ ap (λ s. execute b im env (image s ++ rest) timestamp (reset ds))
                (bytes ∙ ap (λ e. written b im e entry timestamp now vs) (sym constants))
            ∙ execute-written im env room b entry timestamp now vs rest (reset ds) fits address time
                types count

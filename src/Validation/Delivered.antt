-- ===== src/Validation/Delivered.antt =====
-- A call of the C++ interface that compiles, from its arguments to the consumer of src/malc/malc.c.
use mini_async_log_c.Common.{
  ℕ, ◌+◌, ◌^◌, ◌<◌, ◌≡◌, ◌≢◌, refl, sym, ap, ◌∙◌, Bool, true, false, not, ◌||◌, ◌⊎◌, Option, none,
  some, List, [], ◌++◌, map, if◌then◌else◌, ◌==◌, length, All, Result,
}
use mini_async_log_c.Common.BaseLibrary.{IntegerMath, Ringb}
use mini_async_log_c.Serial.Values.{Build, ConstEntry, LogArgument, Value, Fits, type_code}
use mini_async_log_c.Serial.Encode.{image}
use mini_async_log_c.Serial.Wire.{total_compress_count, args_of, refs_of, refdtor_of}
use mini_async_log_c.Serial.Deserialize.{Deserializer, no_refdtor, reset, get_log_entry}
use mini_async_log_c.Serial.RoundTrip.Entry.{written, execute-written}
use mini_async_log_c.Memory.Bounded.{Mpmc}
use mini_async_log_c.Destinations.Types.{PastEntry, is_valid_severity}
use mini_async_log_c.EntryParser.Types.{EntryParser, Printing}
use mini_async_log_c.EntryParser.Objects.{ObjTables}
use mini_async_log_c.EntryParser.Args.{is_obj}
use mini_async_log_c.EntryParser.Text.{parse_text}
use mini_async_log_c.EntryParser.Text.Render
use mini_async_log_c.EntryParser.Text.Render.{Format, IsFormat}
use mini_async_log_c.EntryParser.Entry.{
  typed, Parsed, sanitize, print_timestamp, sev_string, free_entry_resources, get_log_strings,
}
use mini_async_log_c.Logger.Consumer.{
  Node, Outside, Malc, Handled, write_parsed, parse_entry, release, consume_entry,
}
use mini_async_log_c.Validation.LoggedTypes.{LoggedType}
use mini_async_log_c.Validation.Sound.{printed_types}
use mini_async_log_c.Validation.Printed.{
  HasTypes, printed, parse_text-validated, parse_text-validated_returns,
}
use mini_async_log_c.Validation.Compiles.{static_arg_validation-accepted}
use mini_async_log_c.Validation.Aligned.{
  CalledWith, typed-HasTypes, accepted-successes, compiled-IsAligned, objectless, codes_objectless,
}
use mini_async_log_c.Validation.Report.{static_arg_validation}
use mini_async_log_c.Validation.{
  success, success_with_refs, code, get_code, validate, validate_references,
}

module _ (im : IntegerMath) (q : Mpmc) (ringb : Ringb PastEntry) (out : Printing)
    (tables : ObjTables) (sys : Outside) (b : Build) where
  abbrev constants : ℕ → ConstEntry
  constants entry = sys.env.static.const_entry entry

  -- What the deserializer gets back of a call.
  abbrev pub received : ℕ → ℕ → List Value → Deserializer
  received entry t vs = record {
    args = args_of vs;
    refs = refs_of vs;
    refdtor = refdtor_of no_refdtor vs;
    entry = entry;
    t = t;
  }

  -- The bytes behind a node are those that the producer wrote for a call.
  abbrev pub Carries : Node → ℕ → Bool → ℕ → List Value → List ℕ → Type 0
  Carries n entry ts now vs rest =
      (n.bytes ≡ image (written b im (sys.env.static.const_entry entry) entry ts now vs) ++ rest)
      × (n.node.has_timestamp ≡ ts)

  -- What the macros of the interface make of a call: the types and the count of its entry.
  abbrev pub IsCalled : ℕ → ℕ → List Value → Type 0
  IsCalled entry now vs =
      All (Fits b) vs
      × (entry < 256 ^ b.ptr_bytes)
      × (now < 2 ^ 64)
      × ((sys.env.static.const_entry entry).types ≡ map type_code vs)
      × ((sys.env.static.const_entry entry).compressed_count
          ≡ total_compress_count b (map type_code vs))

  -- The values with the types of the entry, as the parser pairs them.
  abbrev pub paired : ℕ → List Value → List (ℕ × LogArgument)
  paired entry vs = typed (sys.env.static.const_entry entry).types (args_of vs)

  -- What follows the printing of the text: it is sanitized, what the call passed is freed and the
  -- strings go to the destinations, and the node's memory is given back.
  abbrev pub handed :
      Node
      → Malc b im q ringb out tables sys
      → ℕ
      → ℕ
      → List Value
      → Option (EntryParser × Result (Unit {0}))
      → Option (Handled b im q ringb out tables sys)
  handed n l entry t vs none = none
  handed n l entry t vs (some (ep, r)) =
      let s = sanitize out tables ep r in
      let parsed : Parsed out tables = record {
        parser = s.0;
        result = s.1.0;
        strings = record {
          timestamp = print_timestamp t;
          sev = sev_string (sys.env.static.const_entry entry).severity;
          text = if s.1.1 then s.0.str else [];
        };
        freed =
            free_entry_resources out tables (get_log_entry (received entry t vs)) (paired entry vs);
      } in
      some (
        release b im q ringb out tables sys n
          (write_parsed b im q ringb out tables sys (record l { ds = received entry t vs }) parsed))

  module _ (room : (n : ℕ) → sys.env.has_room n ≡ true) where
    consume_entry-received :
        (n : Node) (l : Malc b im q ringb out tables sys) (entry : ℕ) (ts : Bool) (now : ℕ)
        (vs : List Value) (rest : List ℕ)
        → Carries n entry ts now vs rest
        → IsCalled entry now vs
        → consume_entry b im q ringb out tables sys n l
          ≡ elim (parse_entry b im q ringb out tables sys (record l {
            ds = received entry (sys.env.to_nsec (if ts then now else sys.env.now)) vs;
          })) [ none ↦ none | some r ↦ some (release b im q ringb out tables sys n r) ]
    unfolding consume_entry reset
    consume_entry-received n l entry ts now vs rest (bytes, stamp) (fits, p, t, types, c) =
        rw
          (
            consume_entry,
            bytes,
            stamp,
            execute-written im sys.env room b entry ts now vs rest (reset l.ds) fits p t types c,
          )
          refl

    consume_entry-handed :
        (n : Node) (l : Malc b im q ringb out tables sys) (entry : ℕ) (ts : Bool) (now : ℕ)
        (vs : List Value) (rest : List ℕ)
        → Carries n entry ts now vs rest
        → IsCalled entry now vs
        → (entry == 0 || not (is_valid_severity (constants entry).severity)) ≡ false
        → consume_entry b im q ringb out tables sys n l
          ≡ handed n l entry
              (sys.env.to_nsec (if ts then now else sys.env.now))
              vs
              (parse_text out tables (constants entry).format (paired entry vs) l.ep)
    unfolding parse_entry get_log_strings get_log_entry
    consume_entry-handed n l entry ts now vs rest carries called valid =
        consume_entry-received n l entry ts now vs rest carries called
        ∙ at (parse_text out tables (constants entry).format (paired entry vs) l.ep) refl
      where
        t : ℕ
        t = sys.env.to_nsec (if ts then now else sys.env.now)

        at :
            (r : Option (EntryParser × Result (Unit {0})))
            → parse_text out tables (constants entry).format (paired entry vs) l.ep ≡ r
            → elim (parse_entry b im q ringb out tables sys
                (record l { ds = received entry t vs })) [
                  | none ↦ none
                  | some r ↦ some (release b im q ringb out tables sys n r)
                ]
              ≡ handed n l entry t vs r
        at none e = rw (parse_entry, get_log_strings, valid, e) refl
        at (some parsed) e = rw (parse_entry, get_log_strings, valid, e) refl

    -- The hypotheses on a call whose format and types compile.
    module _ (types : List LoggedType) (c entry now : ℕ) (vs : List Value)
        (few : 1 + length types < 2 ^ 16)
        (compiles : static_arg_validation
            (validate_references types)
            (validate types (sys.env.static.const_entry entry).format)
          ≡ some c)
        (called : IsCalled entry now vs) (with_values : CalledWith types vs) where
      successes :
          (get_code (validate types (constants entry).format) ≡ code success)
          × ((get_code (validate_references types) ≡ code success)
              ⊎ (get_code (validate_references types) ≡ code success_with_refs))
      successes =
          accepted-successes (validate_references types) (validate types (constants entry).format) c
            (sym (static_arg_validation-accepted types (constants entry).format few) ∙ compiles)

      paired-HasTypes : HasTypes (paired entry vs) (printed_types types)
      paired-HasTypes =
          rw (called.3)
            (typed-HasTypes b types vs called.0 with_values (compiled-IsAligned types successes.1))

      paired-NoObject : All (λ a. is_obj a.0 ≡ false) (paired entry vs)
      paired-NoObject =
          rw (called.3) (objectless (map type_code vs) (args_of vs) (codes_objectless vs))

      -- The parser prints this call's text, whatever the parser holds.
      printed_call :
          (ep : EntryParser)
          → (f : Format) × IsFormat f
            × (Render.written f ≡ (constants entry).format)
            × (parse_text out tables (constants entry).format (paired entry vs) ep
                ≡ printed out tables f (paired entry vs) (record ep { str = [] }))
      printed_call ep =
          parse_text-validated out tables types (constants entry).format (paired entry vs) ep few
            successes.0 paired-HasTypes

  -- From a call to its text: when the types and the format of a call compile, and a node carries
  -- what the serialization of the call's arguments wrote, the consumer prints the texts of the
  -- format with each argument of the call at its placeholder, and hands this text, the severity and
  -- the time of the call to the destinations, frees the references of the call and gives back the
  -- node. The arguments are in the range of their types, the constants of the entry are those that
  -- the interface derives from the types, the severity is one, and the allocator has memory.
  pub consume_entry-delivers :
      ((n : ℕ) → sys.env.has_room n ≡ true)
      → (types : List LoggedType) (c entry now : ℕ) (vs : List Value) (ts : Bool) (rest : List ℕ)
        (n : Node) (l : Malc b im q ringb out tables sys)
      → 1 + length types < 2 ^ 16
      → static_arg_validation
          (validate_references types)
          (validate types (sys.env.static.const_entry entry).format)
        ≡ some c
      → IsCalled entry now vs
      → CalledWith types vs
      → Carries n entry ts now vs rest
      → (entry == 0 || not (is_valid_severity (sys.env.static.const_entry entry).severity)) ≡ false
      → (f : Format) × IsFormat f
        × (Render.written f ≡ (sys.env.static.const_entry entry).format)
        × (consume_entry b im q ringb out tables sys n l
            ≡ handed n l entry
                (sys.env.to_nsec (if ts then now else sys.env.now))
                vs
                (printed out tables f (paired entry vs) (record l.ep { str = [] })))
  consume_entry-delivers room types c entry now vs ts rest n l few compiles called with carries
        valid =
      let (f, is, w, e) = printed_call room types c entry now vs few compiles called with l.ep in
      (
        f,
        is,
        w,
        consume_entry-handed room n l entry ts now vs rest carries called valid
            ∙ ap (handed n l entry _ vs) e,
      )

  handed-some :
      (n : Node) (l : Malc b im q ringb out tables sys) (entry t : ℕ) (vs : List Value)
      (r : Option (EntryParser × Result (Unit {0})))
      → r ≢ none
      → handed n l entry t vs r ≢ none
  handed-some n l entry t vs none h e = h refl
  handed-some n l entry t vs (some parsed) h e = absurd (cc)

  -- The consumer comes back from an entry of a call that compiles, whatever its arguments are: no
  -- modifiers of a number with a floating point make it go round for ever. The conditions are those
  -- of the delivery of the text.
  pub consume_entry-returns :
      ((n : ℕ) → sys.env.has_room n ≡ true)
      → (types : List LoggedType) (c entry now : ℕ) (vs : List Value) (ts : Bool) (rest : List ℕ)
        (n : Node) (l : Malc b im q ringb out tables sys)
      → 1 + length types < 2 ^ 16
      → static_arg_validation
          (validate_references types)
          (validate types (sys.env.static.const_entry entry).format)
        ≡ some c
      → IsCalled entry now vs
      → CalledWith types vs
      → Carries n entry ts now vs rest
      → (entry == 0 || not (is_valid_severity (sys.env.static.const_entry entry).severity)) ≡ false
      → consume_entry b im q ringb out tables sys n l ≢ none
  consume_entry-returns room types c entry now vs ts rest n l few compiles called with carries valid
        e =
      handed-some n l entry _ vs _
        (parse_text-validated_returns out tables types (constants entry).format (paired entry vs)
          l.ep few (successes room types c entry now vs few compiles called with).0
          (paired-HasTypes room types c entry now vs few compiles called with)
          (paired-NoObject room types c entry now vs few compiles called with))
        (sym (consume_entry-handed room n l entry ts now vs rest carries called valid) ∙ e)

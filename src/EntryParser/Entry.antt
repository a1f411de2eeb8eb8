-- ===== src/EntryParser/Entry.antt =====
-- `entry_parser_get_log_strings` of src/malc/entry_parser.c and what it frees.
pub mod Timestamp
pub mod Sanitize
use Prim.Native.Nat.{ℕ, zero, suc, ◌+◌, ◌-◌, ◌*◌, ◌/◌, ◌%◌}
use mini_async_log_c.Common.{
  Bool, true, false, not, ◌&&◌, ◌||◌, Option, none, some, List, [], ◌∷◌, ◌++◌, if◌then◌else◌, ltb,
  ◌==◌, length, take, Result, ok, err, BlErr, invalid,
}
use mini_async_log_c.Serial.Values.{
  StaticData, LogArgument, vobj, vobjctx, vobjflag, MalcRef, RefDtor, type_obj, type_obj_ctx,
  type_obj_flag,
}
use mini_async_log_c.Serial.Deserialize.{LogEntry}
use mini_async_log_c.Destinations.Types.{
  LogStrings, sev_debug, sev_trace, sev_note, sev_warning, sev_error, sev_critical,
  is_valid_severity,
}
use mini_async_log_c.EntryParser.Types.{lit, EntryParser, Printing, Ep, after}
use mini_async_log_c.EntryParser.Objects.{
  ObjRef, ObjTables, get_aligned_obj_ref, get_aligned_obj_ref_flag, get_aligned_obj_ref_ctx,
}
use mini_async_log_c.EntryParser.Args.{is_obj}
use mini_async_log_c.EntryParser.Text.{parse_text}

-- `sev_strings`, from the debug severity on.
abbrev pub sev_string : ℕ → List ℕ
sev_string sev =
    if sev == sev_debug
    then lit "[debug]"
    else if sev == sev_trace
    then lit "[trace]"
    else if sev == sev_note
    then lit "[note_]"
    else if sev == sev_warning
    then lit "[warn_]"
    else if sev == sev_error
    then lit "[error]"
    else lit "[crit_]"

-- The decimal digits of a number with leading zeros up to a width, as `printf` writes them before
-- `acc`: a digit a round, and 20 of them hold 64 bits.
unfoldable pub decimal : ℕ → ℕ → ℕ → List ℕ → List ℕ
decimal zero width v acc = acc
decimal (suc rounds) width v acc =
    let rest = decimal rounds (width - 1) (v / 10) ((b'0' + v % 10) ∷ acc) in
    if width == 0 && (v == 0) then acc else rest

abbrev pub tstamp_integer : ℕ
tstamp_integer = 11

abbrev pub tstamp_decimal : ℕ
tstamp_decimal = 9

abbrev pub nsec_in_sec : ℕ
nsec_in_sec = 1000000000

-- The two calls of `snprintf` on `ep->timestamp`.
unfoldable pub print_timestamp : ℕ → List ℕ
unfolding decimal
print_timestamp t =
    take (tstamp_integer + 1) (decimal 20 tstamp_integer (t / nsec_in_sec) (b'.' ∷ []))
    ++ take tstamp_decimal (decimal 20 tstamp_decimal (t % nsec_in_sec) [])

-- The arguments with their types; a type that the string does not have reads as its final 0.
abbrev pub typed : List ℕ → List LogArgument → List (ℕ × LogArgument)
typed types [] = []
typed [] (a ∷ args) = (0, a) ∷ typed [] args
typed (t ∷ types) (a ∷ args) = (t, a) ∷ typed types args

-- The calls that free what an entry holds.
pub data Freed : Type 0 where
  destroy_call : ℕ → ObjRef → Freed
  refdtor_call : ℕ → ℕ → List MalcRef → Freed

module _ (out : Printing) (tables : ObjTables) where
  unfoldable pub destroy_obj : ℕ → ObjRef → List Freed
  destroy_obj table od = if tables.has_destroy table then destroy_call table od ∷ [] else []

  -- The object of an argument, by the member it is stored in.
  unfoldable pub destroy_arg : LogArgument → List Freed
  unfolding destroy_obj
  destroy_arg (vobj table bytes) = destroy_obj table (get_aligned_obj_ref bytes)
  destroy_arg (vobjctx c table bytes) = destroy_obj table (get_aligned_obj_ref_ctx c bytes)
  destroy_arg (vobjflag f table bytes) = destroy_obj table (get_aligned_obj_ref_flag f bytes)
  destroy_arg _ = []

  unfoldable pub destroy_objects : List (ℕ × LogArgument) → List Freed
  unfolding destroy_arg
  destroy_objects [] = []
  destroy_objects ((type, arg) ∷ args) =
      let rest = destroy_objects args in if is_obj type then destroy_arg arg ++ rest else rest

  unfoldable pub free_entry_resources : LogEntry → List (ℕ × LogArgument) → List Freed
  unfolding destroy_objects
  free_entry_resources e args =
      destroy_objects args
      ++ (if e.refdtor.func == 0
          then []
          else refdtor_call e.refdtor.func e.refdtor.context e.refs ∷ [])

  -- What `get_log_strings` leaves: the parser, the result, the strings, and the calls it made.
  pub record Parsed : Type 0 where
    pub parser : EntryParser
    pub result : Result (Unit {0})
    pub strings : LogStrings
    pub freed : List Freed

  -- The sanitizing step behind `parse_text`, from the parser and the result that it left: the parser,
  -- the result, and whether the text is handed out.
  unfoldable pub sanitize :
      EntryParser → Result (Unit {0}) → EntryParser × (Result (Unit {0}) × Bool)
  sanitize ep r =
      if not ep.sanitize_log_entries then (ep, (r, true)) else (elim (out.remove_char 10 ep.str) [
        | err e ↦ (ep, (err e, false))
        | ok t ↦ elim (out.remove_char 13 t) [
          | err e ↦ (record ep { str = t }, (err e, false))
          | ok t' ↦ (record ep { str = t' }, (ok tt, true))
        ]
      ])

  -- `entry_parser_get_log_strings` on the strings that the caller passed; of the pointers that it tests
  -- the entry's own can be null.
  unfoldable pub get_log_strings : StaticData → LogEntry → LogStrings → EntryParser → Option Parsed
  unfolding is_valid_severity print_timestamp parse_text sanitize free_entry_resources
  get_log_strings static e strs ep =
      let info = static.const_entry e.entry in
      let args = typed info.types e.args in
      if e.entry == 0 || not (is_valid_severity info.severity)
      then some (record { parser = ep; result = err invalid; strings = strs; freed = [] })
      else (elim (parse_text out tables info.format args ep) [
        | none ↦ none
        | some parsed ↦
            let s = sanitize parsed.0 parsed.1 in
            some (record {
              parser = s.0;
              result = s.1.0;
              strings = record {
                timestamp = print_timestamp e.timestamp;
                sev = sev_string info.severity;
                text = if s.1.1 then s.0.str else [];
              };
              freed = free_entry_resources e args;
            })
      ])

-- ===== src/EntryParser/Entry/Sanitize.antt =====
-- The error paths of `entry_parser_get_log_strings` of src/malc/entry_parser.c.
use mini_async_log_c.Common.{
  ℕ, ◌≡◌, refl, true, false, Option, none, some, List, ◌==◌, Result, ok, err, BlErr,
}
use mini_async_log_c.Serial.Values.{StaticData}
use mini_async_log_c.Serial.Deserialize.{LogEntry}
use mini_async_log_c.Destinations.Types.{LogStrings, is_valid_severity}
use mini_async_log_c.EntryParser.Types.{EntryParser, Printing}
use mini_async_log_c.EntryParser.Objects.{ObjTables}
use mini_async_log_c.EntryParser.Text.{parse_text}
use mini_async_log_c.EntryParser.Entry.{typed, Parsed, sanitize, get_log_strings}

-- The entry is there and its severity is one of the six.
abbrev pub IsEntry : StaticData → LogEntry → Type 0
IsEntry static e =
    ((e.entry == 0) ≡ false) × (is_valid_severity ((static.const_entry e.entry).severity) ≡ true)

module _ (out : Printing) (tables : ObjTables) (static : StaticData) (e : LogEntry)
    (strs : LogStrings) (ep : EntryParser) where
  abbrev parse : Option (EntryParser × Result (Unit {0}))
  parse =
      parse_text out tables (static.const_entry e.entry).format
        (typed (static.const_entry e.entry).types e.args) ep

  abbrev pub outcome : Option (Parsed out tables) → Option (Result (Unit {0}) × List ℕ)
  outcome none = none
  outcome (some p) = some (p.result, p.strings.text)

  -- When the parser sanitizes and the line breaks can be removed, the error with which the text of
  -- an entry of a valid severity ended is lost: the call answers `ok` and hands out the text up to
  -- there, without its line breaks.
  pub get_log_strings-hides :
      (strip : ℕ → List ℕ → List ℕ) (left : EntryParser) (x : BlErr)
      → IsEntry static e
      → ((c : ℕ) (t : List ℕ) → out.remove_char c t ≡ ok (strip c t))
      → parse ≡ some (left, err x)
      → left.sanitize_log_entries ≡ true
      → outcome (get_log_strings out tables static e strs ep)
        ≡ some (ok tt, strip 13 (strip 10 left.str))
  unfolding get_log_strings sanitize
  get_log_strings-hides strip left x v removes p s =
      rw
        (
          get_log_strings,
          v.0,
          v.1,
          p,
          sanitize,
          s,
          removes 10 left.str,
          removes 13 (strip 10 left.str),
        )
        refl

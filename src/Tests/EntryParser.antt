-- ===== src/Tests/EntryParser.antt =====
-- The printing of texts with an allocator that never fails, and runs of the entry parser on it.
use mini_async_log_c.Common.{
  ℕ, ◌+◌, ◌*◌, ◌/◌, ◌%◌, ◌≡◌, refl, ap, true, none, some, List, [], ◌∷◌, ◌++◌, if◌then◌else◌, ◌==◌,
  length, ok, err, error, take, drop, All, arith,
}
use mini_async_log_c.Serial.Values.{StaticData, vu8, vu32, vobj, type_u8, type_u32, type_obj}
use mini_async_log_c.Serial.Deserialize.{LogEntry}
use mini_async_log_c.Destinations.Types.{LogStrings, is_valid_severity}
use mini_async_log_c.EntryParser.Types.{lit, EntryParser, Printing}
use mini_async_log_c.EntryParser.Objects.{ObjTables}
use mini_async_log_c.EntryParser.FloatFormat.{find_order, build_loop}
use mini_async_log_c.EntryParser.FloatFormat.Laws.{build_loop-hangs}
use mini_async_log_c.EntryParser.Text.{parse_text}
use mini_async_log_c.EntryParser.Text.Render.{
  Format, plain, brace, place, written, render, parse_text-render,
}
use mini_async_log_c.EntryParser.Entry.{print_timestamp, nsec_in_sec, get_log_strings}
use mini_async_log_c.EntryParser.Entry.Timestamp.{IsDigit, read_decimal, print_timestamp-reads}
use mini_async_log_c.EntryParser.Entry.Sanitize.{outcome, get_log_strings-hides}

abbrev pub digit_char : ℕ → ℕ
digit_char d = if (d / 10) == 0 then b'0' + d else b'a' + (d % 10)

abbrev pub hex_text : List ℕ → List ℕ
hex_text [] = []
hex_text (b ∷ bs) = digit_char (b / 16) ∷ digit_char (b % 16) ∷ hex_text bs

pub hex_text_append : (xs ys : List ℕ) → hex_text (xs ++ ys) ≡ hex_text xs ++ hex_text ys
hex_text_append [] ys = refl
hex_text_append (x ∷ xs) ys =
    ap (λ t. digit_char (x / 16) ∷ digit_char (x % 16) ∷ t) (hex_text_append xs ys)

pub length-hex_text : (xs : List ℕ) → length (hex_text xs) ≡ 2 * length xs
length-hex_text [] = refl
length-hex_text (x ∷ xs) = omega (arith, length-hex_text xs)

abbrev pub without : ℕ → List ℕ → List ℕ
without c [] = []
without c (x ∷ xs) = let rest = without c xs in if x == c then rest else x ∷ rest

abbrev pub plain_out : Printing
plain_out = record {
  append_error = λ s t. none;
  capacity_error = λ n. none;
  itostr = λ signed width fmt v. if width == 8 then ok ((b'0' + v) ∷ []) else err error;
  itostr_arr = λ fmt sep ptr count signed log. ok (b'#' ∷ []);
  print_float = λ fmt v. b'1' ∷ [];
  print_double = λ fmt v. b'2' ∷ [];
  print_ptr = λ p. b'p' ∷ [];
  float_at = λ p i. 0;
  double_at = λ p i. 0;
  text_at = λ p. [];
  bytes_at = λ p n. [];
  hex = hex_text;
  hex-append = hex_text_append;
  length-hex = length-hex_text;
  remove_char = λ c t. ok (without c t);
}

abbrev pub no_tables : ObjTables
no_tables = record { getdata = λ t. none; has_destroy = λ t. true }

abbrev pub parser : EntryParser
parser = record { str = []; fmt = []; sanitize_log_entries = true }

-- "a{{b{x}": an escaped brace and a placeholder.
abbrev a_format : Format
a_format = brace (lit "a") (place (lit "b") (lit "x") (plain (lit "c")))

parse_text-render_example :
    parse_text plain_out no_tables (written a_format) ((type_u8, vu8 7) ∷ []) parser
    ≡ render plain_out no_tables a_format ((type_u8, vu8 7) ∷ []) (record parser { str = [] })
parse_text-render_example =
    parse_text-render plain_out no_tables a_format ((type_u8, vu8 7) ∷ []) parser (
      (λ e. absurd (omega arith), tt),
      (
        (λ e. absurd (omega arith), tt),
        (
          ((λ e. absurd (omega arith), λ e. absurd (omega arith)), tt),
          (λ e. absurd (omega arith), tt),
        ),
      ),
    )

build_loop-hangs_example : build_loop plain_out 100 (lit "8+") 96 0 parser ≡ none
unfolding find_order
build_loop-hangs_example =
    build_loop-hangs plain_out (λ s t. refl) 100 b'8' b'+' [] parser (refl, (λ e. omega arith)) refl
      (λ e. omega arith)

print_timestamp-reads_example :
    (length (print_timestamp 1234567890123) ≡ 21)
    × ((read_decimal 0 (take 11 (print_timestamp 1234567890123)) ≡ 1234567890123 / nsec_in_sec)
        × (read_decimal 0 (drop 12 (print_timestamp 1234567890123)) ≡ 1234567890123 % nsec_in_sec))
    × (take 1 (drop 11 (print_timestamp 1234567890123)) ≡ b'.' ∷ [])
    × All IsDigit (take 11 (print_timestamp 1234567890123))
    × All IsDigit (drop 12 (print_timestamp 1234567890123))
print_timestamp-reads_example = print_timestamp-reads 1234567890123 (omega arith)

-- A warning of one number whose printing fails, and an object.
abbrev pub entries : StaticData
entries = record {
  const_entry = λ p. record {
    format = lit "x{}";
    severity = 54;
    types = type_u32 ∷ type_obj ∷ [];
    compressed_count = 0;
  };
  obj_sizeof = λ t. 1;
}

abbrev warning : LogEntry
warning = record {
  entry = 500;
  timestamp = 0;
  args = vu32 7 ∷ vobj 600 (1 ∷ []) ∷ [];
  refs = [];
  refdtor = record { func = 700; context = 0 };
}

abbrev no_strings : LogStrings
no_strings = record { timestamp = []; sev = []; text = [] }

get_log_strings-hides_example :
    outcome plain_out no_tables entries warning no_strings parser
      (get_log_strings plain_out no_tables entries warning no_strings parser)
    ≡ some (ok tt, lit "x")
unfolding parse_text is_valid_severity
get_log_strings-hides_example =
    get_log_strings-hides plain_out no_tables entries warning no_strings parser without
      (record parser { str = lit "x" }) error (refl, refl) (λ c t. refl) refl refl

-- ===== src/EntryParser/Types.antt =====
-- `entry_parser` of src/malc/entry_parser.h, its messages, and what it calls of the base library and
-- of the C library to print values.
use Prim.Native.Char.{code}
use Prim.Native.String.{String}
use mini_async_log_c.Common.{
  ℕ, ◌*◌, ◌≡◌, Bool, false, Option, none, some, List, [], ◌∷◌, ◌++◌, length, Result, ok, err, BlErr,
}

-- The bytes of an ASCII literal.
abbrev pub lit : String → List ℕ
lit String.[] = []
lit (String.◌∷◌ c s) = code c ∷ lit s

abbrev pub unclosed_fmt : List ℕ
unclosed_fmt = lit "{<MALC: missing \"}\">"

abbrev pub esc_braces_in_fmt : List ℕ
esc_braces_in_fmt = lit "<MALC: escaped braces inside format sequence. ignored>"

abbrev pub misplaced_open_braces : List ℕ
misplaced_open_braces = lit "<MALC: multiple open braces inside format sequence. ignored>"

abbrev pub excess_args : List ℕ
excess_args = lit "<MALC: excess args/missing placeholders>"

abbrev pub missing_arg : List ℕ
missing_arg = lit "<MALC: missing arg>"

abbrev pub separator : List ℕ
separator = lit " "

-- `entry_parser`: the texts in its two strings. The aligned storage of objects and the buffer of the
-- timestamp hold nothing between calls.
pub record EntryParser : Type 0 where
  pub str : List ℕ
  pub fmt : List ℕ
  pub sanitize_log_entries : Bool

-- What is outside of the repository. A text is a list of bytes.
pub record Printing : Type 0 where
  -- `bl_dstr_append_*` of a text to a string: the error, or the string has it at its end. A string
  -- is left as it was by an error.
  pub append_error : List ℕ → List ℕ → Option BlErr
  -- `bl_dstr_set_capacity`
  pub capacity_error : ℕ → Option BlErr
  -- `bl_itostr_dyn_i` (signed) and `bl_itostr_dyn_u` at a width, by format and bit pattern: the text
  -- that is appended.
  pub itostr : Bool → ℕ → List ℕ → ℕ → Result (List ℕ)
  -- `bl_itostr_dyn_arr`, by format, separator, address, count, sign and the logarithm of the size.
  pub itostr_arr : List ℕ → List ℕ → ℕ → ℕ → Bool → ℕ → Result (List ℕ)
  -- What `printf` makes of a format and the bit pattern of a number.
  pub print_float : List ℕ → ℕ → List ℕ
  pub print_double : List ℕ → ℕ → List ℕ
  pub print_ptr : ℕ → List ℕ
  -- A `float` and a `double` in memory, by the array's address and the index.
  pub float_at : ℕ → ℕ → ℕ
  pub double_at : ℕ → ℕ → ℕ
  -- Text in memory, up to its 0 and by its length.
  pub text_at : ℕ → List ℕ
  pub bytes_at : ℕ → ℕ → List ℕ
  -- `bl_bytes_to_hex_string`
  pub hex : List ℕ → List ℕ
  pub hex-append : (xs ys : List ℕ) → hex (xs ++ ys) ≡ hex xs ++ hex ys
  pub length-hex : (xs : List ℕ) → length (hex xs) ≡ 2 * length xs
  -- `bl_dstr_replace_lit` of a character by nothing, everywhere.
  pub remove_char : ℕ → List ℕ → Result (List ℕ)

-- A function of the parser: `none` where it does not return. The state comes back after an error
-- too, since what was appended stays.
abbrev pub Ep : Type 0 → Type 0
Ep A = EntryParser → Option (EntryParser × Result A)

abbrev pub pure : {A : Type 0} → A → Ep A
pure a ep = some (ep, ok a)

abbrev pub raise : {A : Type 0} → BlErr → Ep A
raise e ep = some (ep, err e)

abbrev pub after :
    {A B : Type 0} → Option (EntryParser × Result A) → (A → Ep B) → Option (EntryParser × Result B)
after none f = none
after (some (ep, ok a)) f = f a ep
after (some (ep, err e)) f = some (ep, err e)

infixl 5 ◌>>=◌ ◌>>◌
abbrev pub ◌>>=◌ : {A B : Type 0} → Ep A → (A → Ep B) → Ep B
◌>>=◌ m f ep = after (m ep) f

abbrev pub ◌>>◌ : {A B : Type 0} → Ep A → Ep B → Ep B
m >> k = m >>= λ _. k

module _ (out : Printing) where
  -- Appends to `ep->str` and to `ep->fmt`.
  unfoldable pub append : List ℕ → Ep (Unit {0})
  append t ep = elim (out.append_error ep.str t) [
    | none ↦ some (record ep { str = ep.str ++ t }, ok tt)
    | some e ↦ some (ep, err e)
  ]

  unfoldable pub append_fmt : List ℕ → Ep (Unit {0})
  append_fmt t ep = elim (out.append_error ep.fmt t) [
    | none ↦ some (record ep { fmt = ep.fmt ++ t }, ok tt)
    | some e ↦ some (ep, err e)
  ]

  -- An append to `ep->fmt` whose error is not read.
  unfoldable pub append_fmt_unchecked : List ℕ → EntryParser → EntryParser
  append_fmt_unchecked t ep = elim (out.append_error ep.fmt t) [
    | none ↦ record ep { fmt = ep.fmt ++ t }
    | some e ↦ ep
  ]

  -- An append of a text whose making can fail.
  unfoldable pub append_made : Result (List ℕ) → Ep (Unit {0})
  append_made (ok t) ep = some (record ep { str = ep.str ++ t }, ok tt)
  append_made (err e) ep = some (ep, err e)

-- `bl_dstr_clear (&ep->fmt)`
abbrev pub clear_fmt : EntryParser → EntryParser
clear_fmt ep = record ep { fmt = [] }

-- `entry_parser_init`, from the errors of the two capacities.
unfoldable pub entry_parser_init : Option BlErr → Option BlErr → Result EntryParser
entry_parser_init (some e) fmt_error = err e
entry_parser_init none (some e) = err e
entry_parser_init none none = ok (record { str = []; fmt = []; sanitize_log_entries = false })

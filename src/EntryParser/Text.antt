-- ===== src/EntryParser/Text.antt =====
-- `parse_text` of src/malc/entry_parser.c.
pub mod Render
pub mod Returns
use Prim.Native.Nat.{ℕ, zero, suc, ◌+◌}
use mini_async_log_c.Common.{
  Bool, true, false, ◌&&◌, Option, none, some, List, [], ◌∷◌, ◌++◌, if◌then◌else◌, ◌==◌, Result, ok,
  err, BlErr,
}
use mini_async_log_c.Serial.Values.{LogArgument}
use mini_async_log_c.EntryParser.Types.{
  unclosed_fmt, esc_braces_in_fmt, misplaced_open_braces, excess_args, missing_arg, EntryParser,
  Printing, Ep, after, append,
}
use mini_async_log_c.EntryParser.Objects.{ObjTables}
use mini_async_log_c.EntryParser.Args.{append_arg}

-- What `parse_text` keeps in its variables: the text from `text_beg` to `it`, whether a placeholder is
-- open (`fmt_beg` is not null; it is `text_beg` then), and the arguments from `arg_idx` on, each with
-- its type.
pub record Scan : Type 0 where
  pub text : List ℕ
  pub is_open : Bool
  pub args : List (ℕ × LogArgument)

-- The step over a character of the text.
abbrev pub keep : ℕ → Scan → Scan
keep c s = record s { text = s.text ++ (c ∷ []) }

unfoldable pub is_escaped : ℕ → ℕ → Bool
is_escaped c d = c == b'{' && (d == b'{')

module _ (out : Printing) (tables : ObjTables) where
  -- The end of the text, and what follows the loop.
  unfoldable pub end_of_entry : Scan → Ep (Unit {0})
  unfolding append
  end_of_entry s ep =
      after (if s.is_open then append out unclosed_fmt ep else some (ep, ok tt)) (λ u ep.
        after (append out s.text ep)
          (λ u ep. elim s.args [ [] ↦ some (ep, ok tt) | _ ∷ _ ↦ append out excess_args ep ]))

  -- "{{", "{" and "}".
  unfoldable pub escaped_braces : Scan → Ep Scan
  unfolding append
  escaped_braces s ep =
      if s.is_open
      then after (append out esc_braces_in_fmt ep)
          (λ u ep. some (ep, ok (record s { text = s.text ++ (b'{' ∷ b'{' ∷ []) })))
      else after (append out (s.text ++ (b'{' ∷ [])) ep)
          (λ u ep. some (ep, ok (record s { text = [] })))

  unfoldable pub open_brace : Scan → Ep Scan
  unfolding append
  open_brace s ep =
      if s.is_open
      then after (append out misplaced_open_braces ep) (λ u ep. some (ep, ok (keep b'{' s)))
      else after (append out s.text ep)
          (λ u ep. some (ep, ok (record s { text = []; is_open = true })))

  unfoldable pub placeholder : Scan → Ep (List (ℕ × LogArgument))
  unfolding append_arg append
  placeholder s ep = elim s.args [
    | [] ↦ after (append out missing_arg ep) (λ u ep. some (ep, ok []))
    | (type, arg) ∷ args ↦
        after (append_arg out tables arg type s.text ep) (λ u ep. some (ep, ok args))
  ]

  unfoldable pub close_brace : Scan → Ep Scan
  unfolding placeholder
  close_brace s ep =
      if s.is_open
      then after (placeholder s ep)
          (λ args ep. some (ep, ok (record { text = []; is_open = false; args = args })))
      else some (ep, ok (keep b'}' s))

  -- The step at a character that no "{" follows, or that is not one.
  unfoldable pub at_char : ℕ → Scan → Ep Scan
  unfolding open_brace close_brace
  at_char c s ep =
      if c == b'{'
      then open_brace s ep
      else if c == b'}'
      then close_brace s ep
      else some (ep, ok (keep c s))

  -- The `while` loop, from the format that is left.
  unfoldable pub parse_loop : List ℕ → Scan → Ep (Unit {0})
  unfolding end_of_entry escaped_braces at_char is_escaped
  parse_loop [] s ep = end_of_entry s ep
  parse_loop (c ∷ []) s ep = after (at_char c s ep) (λ s ep. end_of_entry s ep)
  parse_loop (c ∷ d ∷ rest) s ep = elim (is_escaped c d) [
    | true ↦ after (escaped_braces s ep) (λ s ep. parse_loop rest s ep)
    | false ↦ after (at_char c s ep) (λ s ep. parse_loop (d ∷ rest) s ep)
  ]

  unfoldable pub parse_text : List ℕ → List (ℕ × LogArgument) → Ep (Unit {0})
  unfolding parse_loop
  parse_text fmt args ep =
      parse_loop fmt (record { text = []; is_open = false; args = args }) (record ep { str = [] })

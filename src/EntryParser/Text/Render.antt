-- ===== src/EntryParser/Text/Render.antt =====
-- `parse_text` of src/malc/entry_parser.c against formats that are built from their parts.
use mathlib.Core.Path.{fun_ext}
use mini_async_log_c.Common.{
  ℕ, ◌≡◌, ◌≢◌, refl, ap, ◌∙◌, Bool, true, false, Option, none, some, List, [], ◌∷◌, ◌++◌,
  append-nil, append_assoc, ==_ne, All, Result, ok, err, arith,
}
use mini_async_log_c.Serial.Values.{LogArgument}
use mini_async_log_c.EntryParser.Types.{
  excess_args, missing_arg, EntryParser, Printing, Ep, after, append,
}
use mini_async_log_c.EntryParser.Objects.{ObjTables}
use mini_async_log_c.EntryParser.Args.{append_arg}
use mini_async_log_c.EntryParser.Text.{
  Scan, is_escaped, end_of_entry, escaped_braces, open_brace, close_brace, placeholder, at_char,
  parse_loop, parse_text,
}

-- A format: a text, alone or followed by an escaped brace or by a placeholder with modifiers.
pub data Format : Type 0 where
  plain : List ℕ → Format
  brace : List ℕ → Format → Format
  place : List ℕ → List ℕ → Format → Format

abbrev pub written : Format → List ℕ
written (plain t) = t
written (brace t f) = t ++ (b'{' ∷ b'{' ∷ written f)
written (place t spec f) = t ++ (b'{' ∷ (spec ++ (b'}' ∷ written f)))

abbrev pub NoOpen : ℕ → Type 0
NoOpen c = c ≢ b'{'

abbrev pub NoBrace : ℕ → Type 0
NoBrace c = (c ≢ b'{') × (c ≢ b'}')

-- No text has an opening brace, and no modifiers a brace.
abbrev pub IsFormat : Format → Type 0
IsFormat (plain t) = All NoOpen t
IsFormat (brace t f) = All NoOpen t × IsFormat f
IsFormat (place t spec f) = All NoOpen t × (All NoBrace spec × IsFormat f)

module _ (out : Printing) (tables : ObjTables) where
  -- The texts and the arguments, one after the other.
  abbrev pub render : Format → List (ℕ × LogArgument) → Ep (Unit {0})
  render (plain t) [] ep = after (append out t ep) (λ u ep. some (ep, ok tt))
  render (plain t) (a ∷ args) ep = after (append out t ep) (λ u. append out excess_args)
  render (brace t f) args ep = after (append out (t ++ (b'{' ∷ [])) ep) (λ u. render f args)
  render (place t spec f) [] ep =
      after (append out t ep) (λ u ep. after (append out missing_arg ep) (λ u. render f []))
  render (place t spec f) (a ∷ args) ep =
      after (append out t ep)
        (λ u ep. after (append_arg out tables a.1 a.0 spec ep) (λ u. render f args))

after_assoc :
    {A B C : Type 0} (m : Option (EntryParser × Result A)) (f : A → Ep B) (g : B → Ep C)
    → after (after m f) g ≡ after m (λ a ep. after (f a ep) g)
after_assoc none f g = refl
after_assoc (some (ep, ok a)) f g = refl
after_assoc (some (ep, err e)) f g = refl

pub after_cong :
    {A B : Type 0} (m : Option (EntryParser × Result A)) (f g : A → Ep B)
    → ((a : A) (ep : EntryParser) → f a ep ≡ g a ep)
    → after m f ≡ after m g
after_cong m f g h = ap (after m) (fun_ext (λ a. fun_ext (h a)))

-- A character that the scan passes over.
abbrev Kept : Bool → ℕ → Type 0
Kept false c = NoOpen c
Kept true c = NoBrace c

is_escaped_first : (c d : ℕ) → NoOpen c → is_escaped c d ≡ false
unfolding is_escaped
is_escaped_first c d h = rw (==_ne h) refl

is_escaped_second : (d : ℕ) → NoOpen d → is_escaped b'{' d ≡ false
unfolding is_escaped
is_escaped_second d h = rw (==_ne h) refl

module _ (out : Printing) (tables : ObjTables) where
  at_char-keep :
      (b : Bool) (c : ℕ) (t : List ℕ) (args : List (ℕ × LogArgument)) (ep : EntryParser)
      → Kept b c
      → at_char out tables c (record { text = t; is_open = b; args = args }) ep
        ≡ some (ep, ok (record { text = t ++ (c ∷ []); is_open = b; args = args }))
  unfolding at_char close_brace
  at_char-keep false c t args ep h = rw (==_ne h) (ground arith)
  at_char-keep true c t args ep h = rw (==_ne (h.0), ==_ne (h.1)) refl

  parse_loop-one :
      (c : ℕ) (rest : List ℕ) (s : Scan) (ep : EntryParser)
      → NoOpen c
      → parse_loop out tables (c ∷ rest) s ep
        ≡ after (at_char out tables c s ep) (parse_loop out tables rest)
  unfolding parse_loop
  parse_loop-one c [] s ep h = refl
  parse_loop-one c (d ∷ rest) s ep h = rw (parse_loop, is_escaped_first c d h) refl

  parse_loop-open :
      (d : ℕ) (rest : List ℕ) (s : Scan) (ep : EntryParser)
      → NoOpen d
      → parse_loop out tables (b'{' ∷ d ∷ rest) s ep
        ≡ after (at_char out tables b'{' s ep) (parse_loop out tables (d ∷ rest))
  unfolding parse_loop
  parse_loop-open d rest s ep h = rw (parse_loop, is_escaped_second d h) refl

  parse_loop-keeps :
      (b : Bool) (t rest u : List ℕ) (args : List (ℕ × LogArgument)) (ep : EntryParser)
      → All (Kept b) t
      → parse_loop out tables (t ++ rest) (record { text = u; is_open = b; args = args }) ep
        ≡ parse_loop out tables rest (record { text = u ++ t; is_open = b; args = args }) ep
  parse_loop-keeps b [] rest u args ep h = rw (append-nil u) refl
  parse_loop-keeps b (c ∷ t) rest u args ep h =
      parse_loop-one c (t ++ rest) _ ep (kept b h.0)
      ∙ rw (at_char-keep b c u args ep h.0) (
          parse_loop-keeps b t rest (u ++ (c ∷ [])) args ep h.1
          ∙ rw (append_assoc u (c ∷ []) t) refl)
    where
      kept : (b : Bool) → Kept b c → NoOpen c
      kept false h = h
      kept true h = h.0

  parse_loop-brace :
      (t rest : List ℕ) (args : List (ℕ × LogArgument)) (ep : EntryParser)
      → parse_loop out tables
          (b'{' ∷ b'{' ∷ rest)
          (record { text = t; is_open = false; args = args })
          ep
        ≡ after
            (append out (t ++ (b'{' ∷ [])) ep)
            (λ u. parse_loop out tables rest (record { text = []; is_open = false; args = args }))
  unfolding parse_loop escaped_braces is_escaped
  parse_loop-brace t rest args ep = after_assoc (append out (t ++ (b'{' ∷ [])) ep) _ _

  -- An opening brace, before modifiers that have no brace.
  parse_loop-opens :
      (t spec rest : List ℕ) (args : List (ℕ × LogArgument)) (ep : EntryParser)
      → All NoBrace spec
      → parse_loop out tables
          (b'{' ∷ (spec ++ (b'}' ∷ rest)))
          (record { text = t; is_open = false; args = args })
          ep
        ≡ after (append out t ep) (λ u.
          parse_loop out tables
            (spec ++ (b'}' ∷ rest))
            (record { text = []; is_open = true; args = args }))
  unfolding at_char open_brace
  parse_loop-opens t [] rest args ep h =
      parse_loop-open b'}' rest _ ep (λ e. absurd (omega arith)) ∙ after_assoc (append out t ep) _ _
  parse_loop-opens t (c ∷ spec) rest args ep h =
      parse_loop-open c _ _ ep (h.0.0) ∙ after_assoc (append out t ep) _ _

  parse_loop-closes :
      (spec rest : List ℕ) (args : List (ℕ × LogArgument)) (ep : EntryParser)
      → parse_loop out tables (b'}' ∷ rest) (record { text = spec; is_open = true; args = args }) ep
        ≡ after
            (placeholder out tables (record { text = spec; is_open = true; args = args }) ep)
            (λ args.
              parse_loop out tables rest (record { text = []; is_open = false; args = args }))
  unfolding at_char close_brace
  parse_loop-closes spec rest args ep =
      parse_loop-one b'}' rest _ ep (λ e. absurd (omega arith))
      ∙ after_assoc
          (placeholder out tables (record { text = spec; is_open = true; args = args }) ep)
          (λ args ep. some (ep, ok (record { text = []; is_open = false; args = args })))
          (parse_loop out tables rest)

  parse_loop-end :
      (t : List ℕ) (args : List (ℕ × LogArgument)) (ep : EntryParser)
      → All NoOpen t
      → parse_loop out tables t (record { text = []; is_open = false; args = args }) ep
        ≡ end_of_entry out tables (record { text = t; is_open = false; args = args }) ep
  unfolding parse_loop
  parse_loop-end t args ep h = rw (append-nil t) at (parse_loop-keeps false t [] [] args ep h)

  parse_loop-place :
      (t spec : List ℕ) (f : Format) (args : List (ℕ × LogArgument)) (ep : EntryParser)
      → IsFormat (place t spec f)
      → parse_loop out tables
          (written (place t spec f))
          (record { text = []; is_open = false; args = args })
          ep
        ≡ after (append out t ep) (λ u ep.
          after
            (placeholder out tables (record { text = spec; is_open = true; args = args }) ep)
            (λ args.
              parse_loop out tables
                (written f)
                (record { text = []; is_open = false; args = args })))
  parse_loop-place t spec f args ep h =
      parse_loop-keeps false t _ [] args ep h.0
      ∙ parse_loop-opens t spec (written f) args ep h.1.0
      ∙ after_cong _ _ _ (λ u ep.
        parse_loop-keeps true spec _ [] args ep h.1.0 ∙ parse_loop-closes spec (written f) args ep)

  parse_loop-render :
      (f : Format) (args : List (ℕ × LogArgument)) (ep : EntryParser)
      → IsFormat f
      → parse_loop out tables (written f) (record { text = []; is_open = false; args = args }) ep
        ≡ render out tables f args ep
  unfolding end_of_entry placeholder
  parse_loop-render (plain t) [] ep h = parse_loop-end t [] ep h
  parse_loop-render (plain t) (a ∷ args) ep h = parse_loop-end t (a ∷ args) ep h
  parse_loop-render (brace t f) args ep h =
      parse_loop-keeps false t _ [] args ep h.0
      ∙ parse_loop-brace t (written f) args ep
      ∙ after_cong _ _ _ (λ u ep. parse_loop-render f args ep h.1)
  parse_loop-render (place t spec f) [] ep h =
      parse_loop-place t spec f [] ep h
      ∙ after_cong _ _ _ (λ u ep.
        after_assoc (append out missing_arg ep) _ _
        ∙ after_cong _ _ _ (λ u ep. parse_loop-render f [] ep h.1.1))
  parse_loop-render (place t spec f) (a ∷ args) ep h =
      parse_loop-place t spec f (a ∷ args) ep h
      ∙ after_cong _ _ _ (λ u ep.
        after_assoc (append_arg out tables a.1 a.0 spec ep) _ _
        ∙ after_cong _ _ _ (λ u ep. parse_loop-render f args ep h.1.1))

  -- The parser prints a format's texts and arguments in their order, an escaped brace as one
  -- brace, and says which arguments are missing or too many, for texts without an opening brace
  -- and modifiers without a brace. An error ends it where the append that gave it stands.
  pub parse_text-render :
      (f : Format) (args : List (ℕ × LogArgument)) (ep : EntryParser)
      → IsFormat f
      → parse_text out tables (written f) args ep
        ≡ render out tables f args (record ep { str = [] })
  unfolding parse_text
  parse_text-render f args ep h = parse_loop-render f args (record ep { str = [] }) h

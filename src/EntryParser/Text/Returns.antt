-- ===== src/EntryParser/Text/Returns.antt =====
-- Entries at which `parse_text` of src/malc/entry_parser.c returns whatever their format is.
use mathlib.Core.Path.{subst}
use mini_async_log_c.Common.{
  ℕ, zero, suc, ◌+◌, ◌≡◌, ◌≢◌, refl, Bool, true, false, Option, none, some, List, [], ◌∷◌,
  if◌then◌else◌, ◌==◌, ==_ne, ◌*◌, length, All, Result, ok, err,
}
use mini_async_log_c.Serial.Values.{
  LogArgument, type_float, type_double, type_ptr, type_lit, type_strcp, type_memcp, type_strref,
  type_memref,
}
use mini_async_log_c.EntryParser.Types.{
  EntryParser, Printing, Ep, excess_args, after, append, append_made,
}
use mini_async_log_c.EntryParser.Objects.{ObjTables}
use mini_async_log_c.EntryParser.Args.{
  is_int, is_obj, append_int, append_runs, append_mem, append_arg,
}
use mini_async_log_c.EntryParser.Text.{
  Scan, is_escaped, end_of_entry, escaped_braces, open_brace, close_brace, placeholder, at_char,
  parse_loop, parse_text,
}

-- It returns, and a value that it returns has the property.
abbrev pub Returns : {A : Type 0} → (A → Type 0) → Option (EntryParser × Result A) → Type 0
Returns P none = ⊥
Returns P (some (ep, ok a)) = P a
Returns P (some (ep, err e)) = Unit

abbrev pub Ends : {A : Type 0} → Option (EntryParser × Result A) → Type 0
Ends m = Returns (λ a. Unit) m

pub after-Returns :
    {A B : Type 0} (P : A → Type 0) (Q : B → Type 0) (m : Option (EntryParser × Result A))
    (f : A → Ep B)
    → Returns P m
    → ((a : A) (ep : EntryParser) → P a → Returns Q (f a ep))
    → Returns Q (after m f)
after-Returns P Q none f h k = absurd h
after-Returns P Q (some (ep, ok a)) f h k = k a ep h
after-Returns P Q (some (ep, err e)) f h k = tt

pub if-Returns :
    {A : Type 0} (P : A → Type 0) (b : Bool) (x y : Option (EntryParser × Result A))
    → Returns P x
    → Returns P y
    → Returns P (if b then x else y)
if-Returns P true x y h k = h
if-Returns P false x y h k = k

-- A number with a floating point, or an object, which can push one.
abbrev pub Simple : ℕ × LogArgument → Type 0
Simple (type, arg) = (type ≢ type_float) × ((type ≢ type_double) × (is_obj type ≡ false))

module _ (out : Printing) where
  pub append-Ends : (t : List ℕ) (ep : EntryParser) → Ends (append out t ep)
  unfolding append
  append-Ends t ep = at (out.append_error ep.str t) refl
    where
      at : (r : Option _) → out.append_error ep.str t ≡ r → Ends (append out t ep)
      at none e = rw (append, e) tt
      at (some x) e = rw (append, e) tt

  append_made-Ends : (r : Result (List ℕ)) (ep : EntryParser) → Ends (append_made out r ep)
  unfolding append_made
  append_made-Ends (ok t) ep = tt
  append_made-Ends (err e) ep = tt

  append_runs-Ends :
      (runs last : ℕ) (mem : List ℕ) (ep : EntryParser) → Ends (append_runs out runs last mem ep)
  unfolding append_runs
  append_runs-Ends zero last mem ep = append-Ends _ ep
  append_runs-Ends (suc runs) last mem ep =
      after-Returns _ _ (append out _ ep) _ (append-Ends _ ep)
        (λ u ep h. append_runs-Ends runs last _ ep)

  append_mem-Ends : (mem : List ℕ) (ep : EntryParser) → Ends (append_mem out mem ep)
  unfolding append_mem
  append_mem-Ends mem ep = at (out.capacity_error _) refl
    where
      at :
          (r : Option _)
          → out.capacity_error (length ep.str + length mem * 2) ≡ r
          → Ends (append_mem out mem ep)
      at none e = rw (append_mem, e) (append_runs-Ends _ _ mem ep)
      at (some x) e = rw (append_mem, e) tt

  module _ (tables : ObjTables) where
    pub append_arg-Ends :
        (type : ℕ) (arg : LogArgument) (spec : List ℕ) (ep : EntryParser)
        → Simple (type, arg)
        → Ends (append_arg out tables arg type spec ep)
    unfolding append_arg append_int
    append_arg-Ends type arg spec ep h =
        rw (append_arg, ==_ne h.0, ==_ne h.1.0, h.1.1)
          (if-Returns _ (is_int type) _ _ (append_made-Ends _ _) (
            if-Returns _ (type == type_ptr) _ _ (append-Ends _ _) (
              if-Returns _ (type == type_lit) _ _ (append-Ends _ _) (
                if-Returns _ (type == type_strcp) _ _ (append-Ends _ _) (
                  if-Returns _ (type == type_memcp) _ _ (append_mem-Ends _ _) (
                    if-Returns _ (type == type_strref) _ _ (append-Ends _ _)
                      (if-Returns _ (type == type_memref) _ _ (append_mem-Ends _ _) tt)))))))

    -- The arguments that a scan is left with.
    abbrev AllSimple : Scan → Type 0
    AllSimple s = All Simple s.args

    placeholder-Returns :
        (s : Scan) (ep : EntryParser)
        → AllSimple s
        → Returns (All Simple) (placeholder out tables s ep)
    unfolding placeholder
    placeholder-Returns s ep h = at s.args h
      where
        at :
            (args : List (ℕ × LogArgument))
            → All Simple args
            → Returns (All Simple) (placeholder out tables (record s { args = args }) ep)
        at [] h = after-Returns (λ u. Unit) _ (append out _ ep) _ (append-Ends _ ep) (λ u ep k. tt)
        at ((type, arg) ∷ args) h =
            after-Returns (λ u. Unit) _ (append_arg out tables arg type s.text ep) _
              (append_arg-Ends type arg s.text ep h.0) (λ u ep k. h.1)

    escaped_braces-Returns :
        (s : Scan) (ep : EntryParser)
        → AllSimple s
        → Returns AllSimple (escaped_braces out tables s ep)
    unfolding escaped_braces
    escaped_braces-Returns s ep h =
        if-Returns _ s.is_open _ _
          (after-Returns (λ u. Unit) _ (append out _ ep) _ (append-Ends _ ep) (λ u ep k. h))
          (after-Returns (λ u. Unit) _ (append out _ ep) _ (append-Ends _ ep) (λ u ep k. h))

    at_char-Returns :
        (c : ℕ) (s : Scan) (ep : EntryParser)
        → AllSimple s
        → Returns AllSimple (at_char out tables c s ep)
    unfolding at_char open_brace close_brace
    at_char-Returns c s ep h =
        if-Returns _ (c == b'{') _ _
          (if-Returns _ s.is_open _ _
            (after-Returns (λ u. Unit) _ (append out _ ep) _ (append-Ends _ ep) (λ u ep k. h))
            (after-Returns (λ u. Unit) _ (append out _ ep) _ (append-Ends _ ep) (λ u ep k. h)))
          (if-Returns _ (c == b'}') _ _
            (if-Returns _ s.is_open _ _
              (after-Returns (All Simple) _ (placeholder out tables s ep) _
                (placeholder-Returns s ep h) (λ args ep k. k))
              h)
            h)

    end_of_entry-Ends : (s : Scan) (ep : EntryParser) → Ends (end_of_entry out tables s ep)
    unfolding end_of_entry
    end_of_entry-Ends s ep =
        after-Returns (λ u. Unit) _ _ _ (if-Returns _ s.is_open _ _ (append-Ends _ ep) tt)
          (λ u ep k.
            after-Returns (λ u. Unit) _ (append out s.text ep) _ (append-Ends _ ep)
              (λ u ep k. left s.args ep))
      where
        left :
            (args : List (ℕ × LogArgument)) (ep : EntryParser)
            → Ends (elim args [ [] ↦ some (ep, ok tt) | _ ∷ _ ↦ append out excess_args ep ])
        left [] ep = tt
        left (a ∷ args) ep = append-Ends _ ep

    parse_loop-Ends :
        (fmt : List ℕ) (s : Scan) (ep : EntryParser)
        → AllSimple s
        → Ends (parse_loop out tables fmt s ep)
    unfolding parse_loop
    parse_loop-Ends [] s ep h = end_of_entry-Ends s ep
    parse_loop-Ends (c ∷ []) s ep h =
        after-Returns AllSimple _ (at_char out tables c s ep) _ (at_char-Returns c s ep h)
          (λ s ep k. end_of_entry-Ends s ep)
    parse_loop-Ends (c ∷ d ∷ rest) s ep h =
        at (is_escaped c d) refl (parse_loop-Ends rest) (parse_loop-Ends (d ∷ rest))
      where
        From : List ℕ → Type 0
        From fmt =
            (s : Scan) (ep : EntryParser) → AllSimple s → Ends (parse_loop out tables fmt s ep)

        at :
            (b : Bool)
            → is_escaped c d ≡ b
            → From rest
            → From (d ∷ rest)
            → Ends (parse_loop out tables (c ∷ d ∷ rest) s ep)
        at true e behind next =
            rw (parse_loop, e)
              (after-Returns AllSimple _ (escaped_braces out tables s ep) _
                (escaped_braces-Returns s ep h) behind)
        at false e behind next =
            rw (parse_loop, e)
              (after-Returns AllSimple _ (at_char out tables c s ep) _ (at_char-Returns c s ep h)
                next)

    -- The parser returns at any format, when no argument is a number with a floating point or an object.
    pub parse_text-returns :
        (fmt : List ℕ) (args : List (ℕ × LogArgument)) (ep : EntryParser)
        → All Simple args
        → parse_text out tables fmt args ep ≢ none
    unfolding parse_text
    parse_text-returns fmt args ep h e = subst Ends e (parse_loop-Ends fmt _ _ h)

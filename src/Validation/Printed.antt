-- ===== src/Validation/Printed.antt =====
-- A call that passes include/malcpp/impl/compile_time_validation.hpp in the entry parser of
-- src/malc/entry_parser.c.
use mathlib.Core.Path.{subst}
use mini_async_log_c.Common.{
  ℕ, ◌+◌, ◌^◌, ◌<◌, ◌≡◌, ◌≢◌, refl, sym, ap, ◌∙◌, true, false, Option, none, some, List, [], ◌∷◌,
  ◌++◌, ◌==◌, length, All, Result, ok, err, arith,
}
use mini_async_log_c.Serial.Values.{LogArgument, type_float, type_double}
use mini_async_log_c.EntryParser.Types.{EntryParser, Printing, Ep, after, append, append_fmt}
use mini_async_log_c.EntryParser.Objects.{ObjTables}
use mini_async_log_c.EntryParser.Args.{is_obj, append_float, append_arg}
use mini_async_log_c.EntryParser.Text.{parse_text}
use mini_async_log_c.EntryParser.Text.Render.{
  Format, plain, brace, place, written, IsFormat, render, after_cong, parse_text-render,
}
use mini_async_log_c.EntryParser.Text.Returns.{
  Ends, after-Returns, if-Returns, append-Ends, append_arg-Ends,
}
use mini_async_log_c.Validation.Modifiers.Floating
use mini_async_log_c.Validation.LoggedTypes.{
  float, double, LoggedType, builtin, type_id, validate_builtin, validate_format_modifiers,
}
use mini_async_log_c.Validation.Sound.{printed_types, Accepts, validate-Reads}
use mini_async_log_c.Validation.Floats.{missing_type, appends, build_float_format-appends}
use mini_async_log_c.Validation.{success, code, get_code, validate}

-- The arguments of an entry are of these types.
abbrev pub HasTypes : List (ℕ × LogArgument) → List LoggedType → Type 0
HasTypes [] [] = Unit
HasTypes [] (t ∷ types) = ⊥
HasTypes (a ∷ args) [] = ⊥
HasTypes (a ∷ args) (t ∷ types) = (a.0 ≡ type_id t) × HasTypes args types

module _ (out : Printing) (tables : ObjTables) where
  -- The texts of a format and an argument for each placeholder, and nothing else.
  abbrev pub printed : Format → List (ℕ × LogArgument) → Ep (Unit {0})
  printed (plain t) args ep = append out t ep
  printed (brace t f) args ep = after (append out (t ++ (b'{' ∷ [])) ep) (λ u. printed f args)
  printed (place t spec f) [] ep = after (append out t ep) (λ u. printed f [])
  printed (place t spec f) (a ∷ args) ep =
      after (append out t ep)
        (λ u ep. after (append_arg out tables a.1 a.0 spec ep) (λ u. printed f args))

  after-ok : (m : Option (EntryParser × Result (Unit {0}))) → after m (λ u ep. some (ep, ok tt)) ≡ m
  after-ok none = refl
  after-ok (some (ep, ok tt)) = refl
  after-ok (some (ep, err e)) = refl

  render-printed :
      (f : Format) (types : List LoggedType) (args : List (ℕ × LogArgument)) (ep : EntryParser)
      → Accepts f types
      → HasTypes args types
      → render out tables f args ep ≡ printed f args ep
  render-printed (plain t) [] [] ep acc has = after-ok (append out t ep)
  render-printed (plain t) [] (a ∷ args) ep acc has = absurd has
  render-printed (plain t) (ty ∷ types) args ep acc has = absurd acc
  render-printed (brace t f) types args ep acc has =
      after_cong _ _ _ (λ u ep. render-printed f types args ep acc has)
  render-printed (place t spec f) [] args ep acc has = absurd acc
  render-printed (place t spec f) (ty ∷ types) [] ep acc has = absurd has
  render-printed (place t spec f) (ty ∷ types) (a ∷ args) ep acc has =
      after_cong (append out t ep) _ _ (λ u ep.
        after_cong (append_arg out tables a.1 a.0 spec ep) _ _
          (λ u ep. render-printed f types args ep acc.2 has.1))

  -- When the format of a call passes the validation for the types of its arguments, of which
  -- there are less than 2^16 - 1, the parser prints the texts of the format and an argument at each
  -- placeholder, and none of its messages about a placeholder or an argument, for an entry that has
  -- the arguments of these types but the destructor of references.
  pub parse_text-validated :
      (types : List LoggedType) (fmt : List ℕ) (args : List (ℕ × LogArgument)) (ep : EntryParser)
      → 1 + length types < 2 ^ 16
      → get_code (validate types fmt) ≡ code success
      → HasTypes args (printed_types types)
      → (f : Format) × IsFormat f
        × (written f ≡ fmt)
        × (parse_text out tables fmt args ep ≡ printed f args (record ep { str = [] }))
  parse_text-validated types fmt args ep few pass has =
      let (f, is, w, acc) = validate-Reads types fmt few pass in
      (
        f,
        is,
        w,
        ap (λ x. parse_text out tables x args ep) (sym w)
            ∙ parse_text-render out tables f args ep is
            ∙ render-printed f (printed_types types) args (record ep { str = [] }) acc has,
      )

  append_fmt-Ends : (t : List ℕ) (ep : EntryParser) → Ends (append_fmt out t ep)
  unfolding append_fmt
  append_fmt-Ends t ep = at (out.append_error ep.fmt t) refl
    where
      at : (r : Option _) → out.append_error ep.fmt t ≡ r → Ends (append_fmt out t ep)
      at none e = rw (append_fmt, e) tt
      at (some x) e = rw (append_fmt, e) tt

  appends-Ends : (l : List ℕ) (ep : EntryParser) → Ends (appends out l ep)
  appends-Ends [] ep = tt
  appends-Ends (c ∷ rest) ep =
      after-Returns _ _ (append_fmt out (c ∷ []) ep) _ (append_fmt-Ends _ ep)
        (λ u ep h. appends-Ends rest ep)

  append_float-Ends :
      (arg : LogArgument) (type : ℕ) (spec : List ℕ) (ep : EntryParser)
      → Floating.validate spec ≡ true
      → Ends (append_float out arg type spec ep)
  unfolding append_float
  append_float-Ends arg type spec ep e =
      rw (append_float, build_float_format-appends out spec ep e)
        (after-Returns _ _ (appends out (spec ++ missing_type spec) _) _ (appends-Ends _ _)
          (λ u ep h.
            if-Returns _ (type == type_float) _ _ (append-Ends out _ ep) (append-Ends out _ ep)))

  validated-Ends :
      (ty : LoggedType) (arg : LogArgument) (spec : List ℕ) (ep : EntryParser)
      → is_obj (type_id ty) ≡ false
      → validate_format_modifiers ty spec ≡ true
      → Ends (append_arg out tables arg (type_id ty) spec ep)
  unfolding append_arg validate_format_modifiers validate_builtin
  validated-Ends (builtin float) arg spec ep o e = append_float-Ends arg type_float spec _ e
  validated-Ends (builtin double) arg spec ep o e = append_float-Ends arg type_double spec _ e
  validated-Ends ty arg spec ep o e =
      append_arg-Ends out tables (type_id ty) arg spec ep (omega arith, (omega arith, o))

  -- No argument is an object.
  abbrev pub NoObject : ℕ × LogArgument → Type 0
  NoObject (type, arg) = is_obj type ≡ false

  printed-Ends :
      (f : Format) (types : List LoggedType) (args : List (ℕ × LogArgument)) (ep : EntryParser)
      → Accepts f types
      → HasTypes args types
      → All NoObject args
      → Ends (printed f args ep)
  printed-Ends (plain t) types args ep acc has none_obj = append-Ends out t ep
  printed-Ends (brace t f) types args ep acc has none_obj =
      after-Returns _ _ (append out (t ++ (b'{' ∷ [])) ep) _ (append-Ends out _ ep)
        (λ u ep h. printed-Ends f types args ep acc has none_obj)
  printed-Ends (place t spec f) [] args ep acc has none_obj = absurd acc
  printed-Ends (place t spec f) (ty ∷ types) [] ep acc has none_obj = absurd has
  printed-Ends (place t spec f) (ty ∷ types) ((type, arg) ∷ args) ep acc has none_obj =
      after-Returns _ _ (append out t ep) _ (append-Ends out t ep) (λ u ep h.
        after-Returns _ _ (append_arg out tables arg type spec ep) _ (ends ep)
          (λ u ep h. printed-Ends f types args ep acc.2 has.1 none_obj.1))
    where
      ends : (ep : EntryParser) → Ends (append_arg out tables arg type spec ep)
      ends ep =
          subst (λ x. Ends (append_arg out tables arg x spec ep)) (sym has.0)
            (validated-Ends ty arg spec ep (sym (ap is_obj has.0) ∙ none_obj.0) acc.1)

  -- When the format of a call passes the validation for the types of its arguments, of which
  -- there are less than 2^16 - 1, the parser returns for an entry that has the arguments of these
  -- types but the destructor of references, numbers with a floating point among them, and no
  -- object.
  pub parse_text-validated_returns :
      (types : List LoggedType) (fmt : List ℕ) (args : List (ℕ × LogArgument)) (ep : EntryParser)
      → 1 + length types < 2 ^ 16
      → get_code (validate types fmt) ≡ code success
      → HasTypes args (printed_types types)
      → All NoObject args
      → parse_text out tables fmt args ep ≢ none
  parse_text-validated_returns types fmt args ep few pass has none_obj e =
      let (f, is, w, acc) = validate-Reads types fmt few pass in
      subst Ends
        (sym (render-printed f (printed_types types) args (record ep { str = [] }) acc has)
          ∙ sym (parse_text-render out tables f args ep is)
          ∙ ap (λ x. parse_text out tables x args ep) w
          ∙ e)
        (printed-Ends f (printed_types types) args (record ep { str = [] }) acc has none_obj)

-- ===== src/EntryParser/FloatFormat/Laws.antt =====
-- `build_float_format_on_ep_fmt` of src/malc/entry_parser.c: the formats that it copies, and those
-- at which it does not return.
use mini_async_log_c.Common.{
  ℕ, zero, suc, ◌+◌, ◌-◌, ◌≤◌, ◌≡◌, ◌≢◌, refl, sym, ◌∙◌, inl, inr, Option, none, some, List, [],
  ◌∷◌, ◌++◌, append-nil, append_assoc, length, length-append, All, ◌⊎◌, ap, Result, ok, arith,
}
use mini_async_log_c.EntryParser.Types.{EntryParser, Printing, append_fmt, append_fmt_unchecked}
use mini_async_log_c.EntryParser.FloatFormat.{
  printf_float_modifs, printf_float_modifs_order, find_order, next_order, Round, pass, last, stay,
  push, round_of, round, build_loop, build_float_format,
}

zero_add : (n : ℕ) → 0 + n ≡ n
zero_add n = omega arith

-- A round that stays where it is.
abbrev pub Stays : Round → Type 0
Stays pass = ⊥
Stays last = ⊥
Stays (stay o d) = Unit
Stays (push o d) = ⊥

-- It stays in the next round too.
round_of-stay :
    (c order dots : ℕ) (f : Option ℕ) (o d : ℕ)
    → round_of c order dots f ≡ stay o d
    → Stays (round_of c o d f)
unfolding round_of next_order
round_of-stay c order dots none o d e = cc
round_of-stay c order dots (some x) o d e = ground arith

round-stay : (c order dots o d : ℕ) → round c order dots ≡ stay o d → Stays (round c o d)
unfolding round
round-stay c order dots o d e = round_of-stay c order dots _ o d e

module _ (out : Printing) where
  Stays-hangs :
      (fuel c : ℕ) (fmt : List ℕ) (order dots : ℕ) (ep : EntryParser)
      → Stays (round c order dots)
      → build_loop out fuel (c ∷ fmt) order dots ep ≡ none
  unfolding build_loop
  Stays-hangs zero c fmt order dots ep h = refl
  Stays-hangs (suc fuel) c fmt order dots ep h =
      at (round c order dots) refl h (Stays-hangs fuel c fmt)
    where
      at :
          (r : Round)
          → round c order dots ≡ r
          → Stays r
          → ((order dots : ℕ) (ep : EntryParser)
              → Stays (round c order dots)
              → build_loop out fuel (c ∷ fmt) order dots ep ≡ none)
          → build_loop out (suc fuel) (c ∷ fmt) order dots ep ≡ none
      at pass e st ih = absurd st
      at last e st ih = absurd st
      at (push o d) e st ih = absurd st
      at (stay o d) e st ih = rw (build_loop, e) (ih o d ep (round-stay c order dots o d e))

-- The table has the character, at this place in the order.
abbrev pub HasOrder : ℕ → ℕ → Type 0
HasOrder c o = find_order c printf_float_modifs printf_float_modifs_order ≡ some o

abbrev pub IsFlag : ℕ → Type 0
IsFlag c = HasOrder c b'a'

abbrev pub IsDigit : ℕ → Type 0
IsDigit c = HasOrder c b'b' × (c ≢ b'.')

-- Of a width after its first digit, and of a precision.
abbrev pub IsNumeral : ℕ → Type 0
IsNumeral c = IsDigit c ⊎ (c ≡ b'0')

dot-HasOrder : (c : ℕ) → c ≡ b'.' → HasOrder c b'b'
unfolding find_order
dot-HasOrder c e = rw (e) refl

flag_not_dot : (c : ℕ) → IsFlag c → c ≢ b'.'
flag_not_dot c h e = differ (ap get (sym h ∙ dot-HasOrder c e))
  where
    get : Option ℕ → ℕ
    get none = 0
    get (some o) = o

    differ : ◌≢◌ {A = ℕ} b'a' b'b'
    differ e = omega arith

pub IsFlag-round : (c order : ℕ) → order ≤ b'a' → IsFlag c → round c order 0 ≡ push b'a' 0
unfolding round round_of next_order
IsFlag-round c order small h = let nd : c ≢ b'.' = flag_not_dot c h in rw (h) ground arith

IsDigit-round : (c order dots : ℕ) → order ≤ b'b' → IsDigit c → round c order dots ≡ push b'b' dots
unfolding round round_of next_order
IsDigit-round c order dots small h = rw (h.0) ground arith

IsNumeral-round : (c dots : ℕ) → IsNumeral c → round c b'b' dots ≡ push b'b' dots
unfolding round round_of next_order
IsNumeral-round c dots (inl h) = IsDigit-round c b'b' dots (omega arith) h
IsNumeral-round c dots (inr e) = rw (e) refl

IsFlag-Stays : (c : ℕ) → IsFlag c → (c ≢ b'0') → Stays (round c b'b' 0)
unfolding round round_of next_order
IsFlag-Stays c h ne = rw (h) ground arith

dot-round : round b'.' b'b' 0 ≡ push b'b' 1
unfolding round find_order round_of next_order
dot-round = refl

type-round : (t dots : ℕ) → HasOrder t b'c' → round t b'b' dots ≡ last
unfolding round round_of next_order
type-round t dots h = rw (h) ground arith

suc_add : (n m : ℕ) → suc n + m ≡ suc (n + m)
suc_add n m = omega arith

-- A width, a precision and a type.
abbrev pub width_spec : ℕ → List ℕ → List ℕ → ℕ → List ℕ
width_spec w ws ps t = w ∷ (ws ++ (b'.' ∷ (ps ++ (t ∷ []))))

-- Every append fits.
abbrev pub Appends : Printing → Type 0
Appends out = (s t : List ℕ) → out.append_error s t ≡ none

abbrev pub with_fmt : EntryParser → List ℕ → EntryParser
with_fmt ep t = record ep { fmt = ep.fmt ++ t }

module _ (out : Printing) (fits : Appends out) where
  pub append_fmt-fits :
      (t : List ℕ) (ep : EntryParser) → append_fmt out t ep ≡ some (with_fmt ep t, ok tt)
  unfolding append_fmt
  append_fmt-fits t ep = rw (append_fmt, fits ep.fmt t) refl

  build_loop-push :
      (fuel c : ℕ) (fmt : List ℕ) (order dots o d : ℕ) (ep : EntryParser)
      → round c order dots ≡ push o d
      → build_loop out (suc fuel) (c ∷ fmt) order dots ep
        ≡ build_loop out fuel fmt o d (with_fmt ep (c ∷ []))
  unfolding build_loop
  build_loop-push fuel c fmt order dots o d ep h =
      rw (build_loop, h, append_fmt-fits (c ∷ []) ep) refl

  build_loop-last :
      (fuel c : ℕ) (fmt : List ℕ) (order dots : ℕ) (ep : EntryParser)
      → round c order dots ≡ last
      → build_loop out (suc fuel) (c ∷ fmt) order dots ep ≡ some (with_fmt ep (c ∷ []), ok tt)
  unfolding build_loop
  build_loop-last fuel c fmt order dots ep h = rw (build_loop, h) (append_fmt-fits (c ∷ []) ep)

  -- Characters that are each copied, in one state of the loop.
  build_loop-copies :
      (xs fmt : List ℕ) (fuel order dots : ℕ) (ep : EntryParser)
      → All (λ c. round c order dots ≡ push order dots) xs
      → build_loop out (length xs + fuel) (xs ++ fmt) order dots ep
        ≡ build_loop out fuel fmt order dots (with_fmt ep xs)
  build_loop-copies [] fmt fuel order dots ep h = rw (zero_add fuel, append-nil ep.fmt) refl
  build_loop-copies (x ∷ xs) fmt fuel order dots ep h = rw (suc_add (length xs) fuel) (
      build_loop-push (length xs + fuel) x (xs ++ fmt) order dots order dots ep h.0
      ∙ build_loop-copies xs fmt fuel order dots (with_fmt ep (x ∷ [])) h.1
      ∙ rw (append_assoc ep.fmt (x ∷ []) xs) refl)

  flags-copied :
      (flags fmt : List ℕ) (fuel order : ℕ) (ep : EntryParser)
      (r : Option (EntryParser × Result (Unit {0})))
      → order ≤ b'a'
      → All IsFlag flags
      → ((order : ℕ) → order ≤ b'a' → build_loop out fuel fmt order 0 (with_fmt ep flags) ≡ r)
      → build_loop out (length flags + fuel) (flags ++ fmt) order 0 ep ≡ r
  flags-copied [] fmt fuel order ep r small h k =
      rw (zero_add fuel, sym (append-nil ep.fmt)) (k order small)
  flags-copied (x ∷ xs) fmt fuel order ep r small h k = rw (suc_add (length xs) fuel) (
      build_loop-push (length xs + fuel) x (xs ++ fmt) order 0 b'a' 0 ep
        (IsFlag-round x order small h.0)
      ∙ flags-copied xs fmt fuel b'a' (with_fmt ep (x ∷ [])) r (omega arith) h.1
          (λ o l. rw (append_assoc ep.fmt (x ∷ []) xs) (k o l)))

  numerals-copied :
      (xs fmt : List ℕ) (fuel dots : ℕ) (ep : EntryParser)
      → All IsNumeral xs
      → build_loop out (length xs + fuel) (xs ++ fmt) b'b' dots ep
        ≡ build_loop out fuel fmt b'b' dots (with_fmt ep xs)
  numerals-copied xs fmt fuel dots ep h = build_loop-copies xs fmt fuel b'b' dots ep (each xs h)
    where
      each : (xs : List ℕ) → All IsNumeral xs → All (λ c. round c b'b' dots ≡ push b'b' dots) xs
      each [] h = h
      each (x ∷ xs) h = (IsNumeral-round x dots h.0, each xs h.1)

  width_copied :
      (w : ℕ) (ws ps : List ℕ) (t fuel order : ℕ) (ep : EntryParser)
      → order ≤ b'a'
      → IsDigit w
      → All IsNumeral ws
      → All IsNumeral ps
      → HasOrder t b'c'
      → build_loop out
          (suc (length ws + suc (length ps + suc fuel)))
          (width_spec w ws ps t)
          order
          0
          ep
        ≡ some (with_fmt ep (width_spec w ws ps t), ok tt)
  width_copied w ws ps t fuel order ep small hw hws hps ht =
      build_loop-push _ w _ order 0 b'b' 0 ep (IsDigit-round w order 0 (omega arith) hw)
      ∙ numerals-copied ws _ _ 0 _ hws
      ∙ build_loop-push _ b'.' _ b'b' 0 b'b' 1 _ dot-round
      ∙ numerals-copied ps _ _ 1 _ hps
      ∙ build_loop-last fuel t [] b'b' 1 _ (type-round t 1 ht)
      ∙ ap (λ x. some (record ep { fmt = x }, ok tt)) (joined ep.fmt)
    where
      joined :
          (a : List ℕ)
          → ((((a ++ w ∷ []) ++ ws) ++ b'.' ∷ []) ++ ps) ++ t ∷ [] ≡ a ++ width_spec w ws ps t
      joined a = simp append_assoc

  -- A format of flags, a width, a precision and a type, from characters of the table in that
  -- order, is copied as it stands behind the '%', and the function returns, when no append fails.
  pub build_float_format-copies :
      (flags : List ℕ) (w : ℕ) (ws ps : List ℕ) (t : ℕ) (ep : EntryParser)
      → All IsFlag flags
      → IsDigit w
      → All IsNumeral ws
      → All IsNumeral ps
      → HasOrder t b'c'
      → build_float_format out (flags ++ width_spec w ws ps t) ep
        ≡ some (with_fmt ep (b'%' ∷ (flags ++ width_spec w ws ps t)), ok tt)
  unfolding build_float_format append_fmt_unchecked
  build_float_format-copies flags w ws ps t ep hf hw hws hps ht =
      rw (build_float_format, append_fmt_unchecked, fits ep.fmt (b'%' ∷ []), fuel_enough)
        (flags-copied flags _ _ 96 (with_fmt ep (b'%' ∷ [])) _ (omega arith) hf (λ o l.
          width_copied w ws ps t 1 o _ l hw hws hps ht
          ∙ ap (λ x. some (record ep { fmt = x }, ok tt)) (joined ep.fmt)))
    where
      spec : List ℕ
      spec = width_spec w ws ps t

      fuel_enough :
          suc (length (flags ++ spec)) ≡ length flags + suc (length ws + suc (length ps + suc 1))
      fuel_enough = simp length-append (omega arith)

      joined : (a : List ℕ) → ((a ++ b'%' ∷ []) ++ flags) ++ spec ≡ a ++ (b'%' ∷ (flags ++ spec))
      joined a = simp append_assoc

  -- A flag behind the first digit of a width, which is not the digit 0, is out of order: when no
  -- append fails the loop does not end at it, on any fuel.
  pub build_loop-hangs :
      (fuel w c : ℕ) (rest : List ℕ) (ep : EntryParser)
      → IsDigit w
      → IsFlag c
      → (c ≢ b'0')
      → build_loop out fuel (w ∷ c ∷ rest) (b'a' - 1) 0 ep ≡ none
  unfolding build_loop
  build_loop-hangs zero w c rest ep hw hc h = refl
  build_loop-hangs (suc fuel) w c rest ep hw hc h =
      build_loop-push fuel w (c ∷ rest) 96 0 b'b' 0 ep (IsDigit-round w 96 0 (omega arith) hw)
      ∙ Stays-hangs out fuel c rest b'b' 0 _ (IsFlag-Stays c hc h)

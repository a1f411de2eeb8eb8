-- ===== src/EntryParser/FloatFormat.antt =====
-- `build_float_format_on_ep_fmt` of src/malc/entry_parser.c: the format for `printf` of a number with
-- a floating point.
pub mod Laws
use mini_async_log_c.Common.{
  ℕ, zero, suc, ◌+◌, ◌-◌, Bool, true, false, not, ◌&&◌, ◌||◌, Option, none, some, List, [], ◌∷◌,
  if◌then◌else◌, ltb, ◌==◌, length, Result, ok, err,
}
use mini_async_log_c.EntryParser.Types.{
  lit, EntryParser, Printing, Ep, append_fmt, append_fmt_unchecked, after,
}

abbrev pub printf_float_modifs : List ℕ
printf_float_modifs = lit "# -+0123456789.fFeEgGaA"

abbrev pub printf_float_modifs_order : List ℕ
printf_float_modifs_order = lit "aaaaabbbbbbbbbbcccccccc"

-- `memchr` in the first table, and the entry of the second at the place found.
unfoldable pub find_order : ℕ → List ℕ → List ℕ → Option ℕ
find_order c [] orders = none
find_order c (m ∷ modifs) [] = none
find_order c (m ∷ modifs) (o ∷ orders) =
    let rest = find_order c modifs orders in if c == m then some o else rest

-- The order of a modifier that follows one of order `order`.
unfoldable pub next_order : ℕ → ℕ → ℕ → ℕ
next_order order c o = if not (order == b'b') || not (c == b'0') then o else b'b'

-- What a round of the loop does at a character: pass it over, go round without a step in the text
-- (`continue`) with these values of `order` and `dotcount`, append it and go on with them, or end with
-- it as the type.
pub data Round : Type 0 where
  pass last : Round
  stay push : ℕ → ℕ → Round

unfoldable pub round_of : ℕ → ℕ → ℕ → Option ℕ → Round
unfolding next_order
round_of c order dotcount none = pass
round_of c order dotcount (some o) =
    let new = next_order order c o in
    let dots = if c == b'.' then dotcount + 1 else dotcount in
    if ltb new order
    then stay order dotcount
    else if new == b'c'
    then last
    else if c == b'.' && ltb 1 dots
    then stay new dots
    else push new dots

unfoldable pub round : ℕ → ℕ → ℕ → Round
unfolding round_of find_order
round c order dotcount =
    round_of c order dotcount (find_order c printf_float_modifs printf_float_modifs_order)

module _ (out : Printing) where
  -- The `while` loop on fuel, from the text that is left, `order` and `dotcount`.
  unfoldable pub build_loop : ℕ → List ℕ → ℕ → ℕ → Ep (Unit {0})
  build_loop zero fmt order dotcount ep = none
  build_loop (suc fuel) [] order dotcount ep = append_fmt out (b'f' ∷ []) ep
  build_loop (suc fuel) (c ∷ fmt) order dotcount ep = elim (round c order dotcount) [
    | pass ↦ build_loop fuel fmt order dotcount ep
    | last ↦ append_fmt out (c ∷ []) ep
    | stay o d ↦ build_loop fuel (c ∷ fmt) o d ep
    | push o d ↦ after (append_fmt out (c ∷ []) ep) (λ u. build_loop fuel fmt o d)
  ]

  -- With a round for each character and one more the loop ends, or it never does.
  unfoldable pub build_float_format : List ℕ → Ep (Unit {0})
  unfolding build_loop append_fmt_unchecked
  build_float_format fmt ep =
      build_loop (suc (length fmt)) fmt (b'a' - 1) 0 (append_fmt_unchecked out (b'%' ∷ []) ep)

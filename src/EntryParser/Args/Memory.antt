-- ===== src/EntryParser/Args/Memory.antt =====
-- Memory printed in runs, `append_mem` of src/malc/entry_parser.c, against the digits of all of it.
use Prim.Native.Nat.{ℕ, zero, suc, ◌+◌, ◌*◌, ◌/◌, ◌%◌, ◌≤◌}
use mini_async_log_c.Common.{
  ◌≡◌, refl, sym, ap, ◌∙◌, none, some, List, [], ◌∷◌, ◌++◌, append_assoc, length, take, drop,
  length-take, length-drop, take_all, ok, arith,
}
use mini_async_log_c.EntryParser.Types.{EntryParser, Printing}
use mini_async_log_c.EntryParser.FloatFormat.Laws.{Appends}
use mini_async_log_c.EntryParser.Objects.Arrays.{with_str, append-fits}
use mini_async_log_c.EntryParser.Args.{append_runs, append_mem}

take_append_drop : (n : ℕ) (xs : List ℕ) → take n xs ++ drop n xs ≡ xs
take_append_drop zero xs = refl
take_append_drop (suc n) [] = refl
take_append_drop (suc n) (x ∷ xs) = ap (◌∷◌ x) (take_append_drop n xs)

module _ (out : Printing) where
  -- A buffer holds the digits of what fits it.
  take-hex : (n : ℕ) (mem : List ℕ) → length mem ≤ n → take (2 * n) (out.hex mem) ≡ out.hex mem
  take-hex n mem h = take_all (2 * n) (out.hex mem) (omega (arith, out.length-hex mem))

  module _ (fits : Appends out) where
    append_runs-hex :
        (runs last : ℕ) (mem : List ℕ) (ep : EntryParser)
        → length mem ≡ 64 * runs + last
        → append_runs out runs last mem ep ≡ some (with_str ep (out.hex mem), ok tt)
    unfolding append_runs
    append_runs-hex zero last mem ep h =
        rw (take_all last mem (omega arith), double last, take-hex last mem (omega arith))
          (append-fits out fits (out.hex mem) ep)
      where
        double : (n : ℕ) → n * 2 ≡ 2 * n
        double n = omega arith
    append_runs-hex (suc runs) last mem ep h =
        rw
          (
            take-hex 64 (take 64 mem) (omega (arith, length-take 64 mem)),
            append-fits out fits (out.hex (take 64 mem)) ep,
          )
          (append_runs-hex runs last (drop 64 mem) _ (omega (arith, length-drop 64 mem))
            ∙ ap (λ t. some (record ep { str = t }, ok tt)) (joined ep.str))
      where
        joined :
            (a : List ℕ) → (a ++ out.hex (take 64 mem)) ++ out.hex (drop 64 mem) ≡ a ++ out.hex mem
        joined a =
            append_assoc a _ _
            ∙ ap (λ t. a ++ t)
                (sym (out.hex-append (take 64 mem) (drop 64 mem))
                  ∙ ap out.hex (take_append_drop 64 mem))

    -- Memory of any length is printed as its hexadecimal digits, whatever its split into runs, when the
    -- string gets its capacity and no append fails.
    pub append_mem-hex :
        (mem : List ℕ) (ep : EntryParser)
        → out.capacity_error (length ep.str + length mem * 2) ≡ none
        → append_mem out mem ep ≡ some (with_str ep (out.hex mem), ok tt)
    unfolding append_mem
    append_mem-hex mem ep h =
        rw (append_mem, h)
          (append_runs-hex (length mem / 64) (length mem % 64) mem ep (omega arith))

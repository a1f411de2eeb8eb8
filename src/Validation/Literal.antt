-- ===== src/Validation/Literal.antt =====
-- `literal` of include/malcpp/impl/metaprogramming_common.hpp: the characters of a string literal, or
-- of a part of it. A search is given the characters from its first position to its end, and the
-- position.
use mini_async_log_c.Common.{
  ℕ, suc, ◌-◌, Bool, true, false, Option, none, some, List, [], ◌∷◌, if◌then◌else◌, ◌==◌, take,
  drop,
}

unfoldable pub find : ℕ → List ℕ → ℕ → Option ℕ
find c [] beg = none
find c (x ∷ xs) beg = let rest = find c xs (suc beg) in if x == c then some beg else rest

-- `find (c, 0, size(), -1) != -1`
unfoldable pub has_char : List ℕ → ℕ → Bool
unfolding find
has_char l c = elim (find c l 0) [ none ↦ false | some i ↦ true ]

-- A part of one character has no other to be searched for it.
unfoldable pub has_repeated_chars : List ℕ → Bool
unfolding has_char
has_repeated_chars [] = false
has_repeated_chars (c ∷ rest) =
    let later = has_repeated_chars rest in if has_char rest c then true else later

unfoldable pub substr : List ℕ → ℕ → ℕ → List ℕ
substr l beg end = take (end - beg) (drop beg l)

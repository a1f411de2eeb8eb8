-- ===== src/Tests/Library.antt =====
-- Instances of the interfaces to the base library, which show that their laws can hold together.
use native.Mathlib.Nat.{div-add-mod', mod-lt, pow-suc}
use mini_async_log_c.Common.{
  ℕ, zero, suc, ◌+◌, ◌-◌, ◌/◌, ◌^◌, ◌≤◌, ◌<◌, ◌≡◌, ◌≢◌, refl, true, Bool-cases, inl, inr, some,
  List, [], ◌∷◌, ◌++◌, if◌then◌else◌, ltb, ltb→lt, length, set, remove, drop, ok, arith,
}
use mini_async_log_c.Common.BaseLibrary.{IntegerMath, Ringb}
use mini_async_log_c.Memory.Bounded.{Mpmc}

-- The index of the highest bit of a number below 2 ^ (n + 1).
unfoldable pub log2 : ℕ → ℕ → ℕ
log2 zero v = 0
log2 (suc n) v = let rest = log2 n (v / 2) in if ltb v 2 then 0 else suc rest

pub log2-le : (n v : ℕ) → v ≢ 0 → 2 ^ log2 n v ≤ v
unfolding log2
log2-le zero v h = omega arith
log2-le (suc n) v h = elim (Bool-cases (ltb v 2)) [
  | inl b ↦ rw b (omega arith)
  | inr b ↦ rw b (omega (arith, pow-suc 2 (log2 n (v / 2)), log2-le n (v / 2) (ground arith)))
]

pub log2-lt : (n v : ℕ) → v < 2 ^ suc n → v < 2 ^ suc (log2 n v)
unfolding log2
log2-lt zero v h = h
log2-lt (suc n) v h = elim (Bool-cases (ltb v 2)) [
  | inl b ↦ rw b (ltb→lt v 2 b)
  | inr b ↦ rw b (
      omega (
        arith,
        pow-suc 2 (suc (log2 n (v / 2))),
        log2-lt n (v / 2) (omega (arith, pow-suc 2 (suc n))),
      ))
]

abbrev pub integer_math : IntegerMath
integer_math = record {
  log2_floor = log2 63;
  div_ceil = λ a b. (a + (b - 1)) / b;
  le-log2_floor = λ v h lt. log2-le 63 v h;
  lt-log2_floor = λ v h lt. log2-lt 63 v lt;
  le-div_ceil = λ a b h.
      omega (arith, div-add-mod' (a + (b - 1)) b, mod-lt (a + (b - 1)) {m = b} (omega arith));
  lt-div_ceil = λ a b h. omega (arith, div-add-mod' (a + (b - 1)) b);
}

-- A ring as its elements and the places that are free.
pub record ListRing (A : Type 0) : Type 0 where
  pub items : List A
  pub room : ℕ

module _ {A : Type 0} where
  unfoldable pub push : ListRing A → A → ListRing A
  push r x = elim r.room [ zero ↦ r | suc n ↦ record { items = r.items ++ (x ∷ []); room = n } ]

  pub to_list-push :
      (r : ListRing A) (x : A)
      → length r.items < length r.items + r.room
      → (push r x).items ≡ r.items ++ (x ∷ [])
  unfolding push
  to_list-push r x h = split r.room h
    where
      split :
          (n : ℕ)
          → length r.items < length r.items + n
          → (push (record { items = r.items; room = n }) x).items ≡ r.items ++ (x ∷ [])
      split zero lt = absurd (omega arith)
      split (suc n) lt = refl

  unfoldable pub pop : ListRing A → ListRing A
  pop r = elim r.items [ [] ↦ r | x ∷ xs ↦ record { items = xs; room = suc r.room } ]

  pub to_list-pop :
      (xs : List A) (n : ℕ) → (pop (record { items = xs; room = n })).items ≡ drop 1 xs
  unfolding pop
  to_list-pop [] n = refl
  to_list-pop (x ∷ xs) n = refl

  pub capacity-pop :
      (xs : List A) (n : ℕ)
      → let r' = pop (record { items = xs; room = n }) in length r'.items + r'.room ≡ length xs + n
  unfolding pop
  capacity-pop [] n = refl
  capacity-pop (x ∷ xs) n = omega arith

abbrev pub ringb : (A : Type 0) → Ringb A
ringb A = record {
  Ring = ListRing A;
  to_list = λ r. r.items;
  capacity = λ r. length r.items + r.room;
  init = λ n. ok (record { items = []; room = n });
  set_at = λ r i x. record r { items = set r.items i x };
  drop_at = λ r i. record {
    items = remove r.items i;
    room = r.room + (length r.items - length (remove r.items i));
  };
  drop_head = pop;
  can_insert = λ r. ltb (length r.items) (length r.items + r.room);
  expand_tail = push;
  set_start = λ r. r;
  to_list-set_at = λ r i x. refl;
  to_list-drop_at = λ r i. refl;
  to_list-drop_head = λ r. to_list-pop r.items r.room;
  to_list-expand_tail = to_list-push;
  to_list-set_start = λ r e. e;
  can_insert_lem = λ r. refl;
  capacity-drop_head = λ r. capacity-pop r.items r.room;
  bounded = λ r. omega arith;
}

-- A bounded queue of 64-byte slots, as the number of the slots taken.
abbrev pub mpmc : Mpmc
mpmc = record {
  Queue = ℕ;
  init = λ slot_count max_slots slot_size. ok 0;
  required_slots = λ q n. (n + 63) / 64;
  alloc_slots = λ q n. (some q, q + n);
  dealloc_slots = λ q mem n. q - n;
  in_range = λ q mem. true;
  cpu_count = 2;
}

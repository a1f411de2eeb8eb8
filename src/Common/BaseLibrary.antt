-- ===== src/Common/BaseLibrary.antt =====
-- What the program calls of the base library (bl/base), which is not part of this repository: the
-- operations and the documented behaviour that the proofs rely on.
use Prim.Native.Nat.{ℕ, suc, ◌+◌, ◌*◌, ◌^◌, ◌≤◌, ◌<◌}
use mathlib.Core.Logic.{◌≢◌}
use mathlib.Core.Path.{◌≡◌}
use mathlib.Core.Bool.{Bool}
use mathlib.Core.List.{List, [], ◌∷◌, ◌++◌}
use mini_async_log_c.Common.Tests.{Result, ltb}
use mini_async_log_c.Common.Lists.{length, set, remove, drop}

-- bl/base/integer_math.h and static_integer_math.h.
pub record IntegerMath : Type 0 where
  -- `bl_log2_floor_unsafe_u32` and `bl_log2_floor_unsafe_u64`: the index of the highest set bit.
  pub log2_floor : ℕ → ℕ
  -- `bl_div_ceil`
  pub div_ceil : ℕ → ℕ → ℕ
  pub le-log2_floor : (v : ℕ) → v ≢ 0 → v < 2 ^ 64 → 2 ^ log2_floor v ≤ v
  pub lt-log2_floor : (v : ℕ) → v ≢ 0 → v < 2 ^ 64 → v < 2 ^ suc (log2_floor v)
  pub le-div_ceil : (a b : ℕ) → b ≢ 0 → a ≤ div_ceil a b * b
  pub lt-div_ceil : (a b : ℕ) → b ≢ 0 → div_ceil a b * b < a + b

-- bl/base/ringbuffer.h, as `bl_define_ringb_funcs` instantiates it.
pub record Ringb (A : Type 0) : Type 1 where
  pub Ring : Type 0
  -- The elements, from the head: what `at` reads at each index, and what `size` counts.
  pub to_list : Ring → List A
  pub capacity : Ring → ℕ
  -- `init_extern` with that many elements.
  pub init : ℕ → Result Ring
  -- The ring after a write through the pointer that `at` returns.
  pub set_at : Ring → ℕ → A → Ring
  pub drop_at : Ring → ℕ → Ring
  pub drop_head : Ring → Ring
  pub can_insert : Ring → Bool
  -- `expand_tail_n` by one element and the writes through `at_tail`.
  pub expand_tail : Ring → A → Ring
  -- `bl_ringb_set_start_position` at 0, for an empty ring.
  pub set_start : Ring → Ring
  pub to_list-set_at : (r : Ring) (i : ℕ) (x : A) → to_list (set_at r i x) ≡ set (to_list r) i x
  pub to_list-drop_at : (r : Ring) (i : ℕ) → to_list (drop_at r i) ≡ remove (to_list r) i
  pub to_list-drop_head : (r : Ring) → to_list (drop_head r) ≡ drop 1 (to_list r)
  pub to_list-expand_tail :
      (r : Ring) (x : A)
      → length (to_list r) < capacity r
      → to_list (expand_tail r x) ≡ to_list r ++ (x ∷ [])
  pub to_list-set_start : (r : Ring) → to_list r ≡ [] → to_list (set_start r) ≡ []
  pub can_insert_lem : (r : Ring) → can_insert r ≡ ltb (length (to_list r)) (capacity r)
  pub capacity-drop_head : (r : Ring) → capacity (drop_head r) ≡ capacity r
  pub bounded : (r : Ring) → length (to_list r) ≤ capacity r

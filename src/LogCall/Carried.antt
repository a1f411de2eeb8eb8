-- ===== src/LogCall/Carried.antt =====
-- What a call of a log macro leaves: the entry that it commits, or the destructor that it runs.
use native.Mathlib.Nat.{mod-eq_of_lt}
use mini_async_log_c.Common.{
  ℕ, ◌^◌, ◌≤◌, ◌<◌, ◌≡◌, refl, sym, ap, Bool, ◌&&◌, inl, inr, ◌⊎◌, Bool-cases, Option, none, some,
  List, [], ◌∷◌, map, leb, length, Result, ok, err, arith,
}
use mini_async_log_c.Common.BaseLibrary.{IntegerMath}
use mini_async_log_c.Serial.Values.{Build, ConstEntry, Value, type_code}
use mini_async_log_c.Serial.Wire.{compress_count, total_compress_count}
use mini_async_log_c.Serial.RoundTrip.Entry.{written}
use mini_async_log_c.Memory.Bounded.{Mpmc}
use mini_async_log_c.Memory.Sources.{Memory, Allocation}
use mini_async_log_c.Logger.{State, is_running, Prepared, entry_node, prepared, log_entry_prepare}
use mini_async_log_c.LogCall.{
  create_const_entry, deallocate_in_place, Called, commit, log_if_private,
}

-- The count that the constants of a call have is the one of its types.
total-length : (b : Build) (types : List ℕ) → total_compress_count b types ≤ length types
unfolding total_compress_count compress_count
total-length b [] = omega arith
total-length b (ch ∷ types) = grind (arith, total-length b types)

length-map : (vs : List Value) → length (map type_code vs) ≡ length vs
length-map [] = refl
length-map (v ∷ vs) = omega (arith, length-map vs)

pub create_const_entry-count :
    (b : Build) (sev : ℕ) (format : List ℕ) (vs : List Value)
    → length vs < 2 ^ 16
    → (create_const_entry b sev format vs).compressed_count
      ≡ total_compress_count b (map type_code vs)
unfolding create_const_entry
create_const_entry-count b sev format vs few =
    mod-eq_of_lt (omega (arith, few, total-length b (map type_code vs), length-map vs))

module _ (b : Build) (im : IntegerMath) (q : Mpmc) (sizeof_qnode : ℕ) where
  -- The entry is committed as `written` describes it, or the call frees what it owes.
  abbrev pub IsLeft : ConstEntry → ℕ → Bool → ℕ → List Value → Called q → Type 0
  IsLeft e entry timestamp now vs c =
      ((c.committed ≡ none) × (c.freed ≡ deallocate_in_place vs))
      ⊎ ((p : Prepared) × (c.committed ≡ some p)
          × (p.ext_ser ≡ written b im e entry timestamp now vs)
          × (p.node.has_timestamp ≡ timestamp)
          × (c.freed ≡ []))

  same : (x y : Called q) → some x ≡ some y → x ≡ y
  same x y e = cc

  commit-IsLeft :
      (e : ConstEntry) (entry : ℕ) (timestamp : Bool) (now : ℕ) (vs : List Value)
      (o : Option (Memory q × Result Allocation)) (c : Called q)
      → commit b im q sizeof_qnode vs (prepared b im q sizeof_qnode e entry timestamp now o)
        ≡ some c
      → IsLeft e entry timestamp now vs c
  unfolding commit prepared entry_node
  commit-IsLeft e entry timestamp now vs none c eq = absurd (cc)
  commit-IsLeft e entry timestamp now vs (some (m, err x)) c eq =
      let is = same _ c eq in inl (sym (ap (λ c. c.committed) is), sym (ap (λ c. c.freed) is))
  commit-IsLeft e entry timestamp now vs (some (m, ok a)) c eq =
      let is = same _ c eq in
      inr (
        record {
          mem = a.mem;
          node = entry_node timestamp a;
          ext_ser = written b im e entry timestamp now vs;
        },
        sym (ap (λ c. c.committed) is),
        refl,
        refl,
        sym (ap (λ c. c.freed) is),
      )

  pub log_if_private-IsLeft :
      (cond : Bool) (sev min_severity : ℕ) (format : List ℕ) (entry : ℕ) (state : State)
      (m : Memory q) (current : ℕ) (bl_alloc : ℕ → Option ℕ) (timestamp : Bool) (now : ℕ)
      (vs : List Value) (c : Called q)
      → log_if_private b im q sizeof_qnode cond sev min_severity format entry state m current
          bl_alloc timestamp now vs
        ≡ some c
      → IsLeft (create_const_entry b sev format vs) entry timestamp now vs c
  unfolding log_if_private log_entry_prepare commit
  log_if_private-IsLeft cond sev min_severity format entry state m current bl_alloc timestamp now vs
        c eq =
      elim (Bool-cases (cond && leb min_severity sev)) [
        | inr filtered ↦ left (rw (filtered) at eq)
        | inl logged ↦ elim (Bool-cases (is_running state)) [
          | inr stopped ↦ left (rw (logged, stopped) at eq)
          | inl running ↦
              commit-IsLeft (create_const_entry b sev format vs) entry timestamp now vs _ c
                (rw (logged, running) at eq)
        ]
      ]
    where
      left :
          {m : Memory q} {r : Result (Unit {0})}
          → some (record { mem = m; committed = none; result = r; freed = deallocate_in_place vs })
            ≡ some c
          → IsLeft (create_const_entry b sev format vs) entry timestamp now vs c
      left e =
          let is = same _ c e in inl (sym (ap (λ c. c.committed) is), sym (ap (λ c. c.freed) is))

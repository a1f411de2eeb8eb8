-- ===== src/LogCall/Strip.antt =====
-- The severities that are compiled out: include/malc/log_macros.h. A severity is its number there:
-- 0 is debug and 5 is critical.
use mathlib.Core.Bool.{false≢true}
use mini_async_log_c.Common.{
  ℕ, zero, suc, ◌+◌, ◌<◌, ◌≡◌, refl, sym, ap, ◌∙◌, Bool, true, false, ◌||◌, inl, inr, Bool-cases,
  Option, none, some, List, [], ◌∷◌, if◌then◌else◌, leb, get_or, length, err, nothing_to_do, arith,
}
use mini_async_log_c.Common.BaseLibrary.{IntegerMath}
use mini_async_log_c.Serial.Values.{Build, Value}
use mini_async_log_c.Memory.Bounded.{Mpmc}
use mini_async_log_c.Memory.Sources.{Memory}
use mini_async_log_c.Destinations.Types.{
  sev_debug, sev_trace, sev_note, sev_warning, sev_error, sev_critical,
}
use mini_async_log_c.Logger.{State}
use mini_async_log_c.LogCall.{Called, log_if_private}

-- The macros that the build defines: `MALC_STRIP_LOG_DEBUG` and the other five in the order of their
-- severities, `MALC_STRIP_ALL`, and `MALC_STRIP_LOG_SEVERITY` with its number.
pub record Defined : Type 0 where
  pub strip_log : List Bool
  pub strip_all : Bool
  pub strip_log_severity : Option ℕ

-- The blocks that define the severity, from one on: an error where it has been defined.
unfoldable pub define_severity : ℕ → List Bool → Option ℕ → Option (Option ℕ)
define_severity i [] severity = some severity
define_severity i (false ∷ strip) severity = define_severity (suc i) strip severity
define_severity i (true ∷ strip) none = define_severity (suc i) strip (some i)
define_severity i (true ∷ strip) (some s) = none

-- The last block is for both of its macros.
abbrev pub with_all : Bool → List Bool → List Bool
with_all all [] = []
with_all all (c ∷ []) = (c || all) ∷ []
with_all all (c ∷ d ∷ strip) = c ∷ with_all all (d ∷ strip)

unfoldable pub strip_log_severity : Defined → Option (Option ℕ)
unfolding define_severity
strip_log_severity d = define_severity 0 (with_all d.strip_all d.strip_log) d.strip_log_severity

-- Whether the macro of a severity is defined behind the blocks that define it by the severity.
abbrev pub reaches : Option ℕ → ℕ → Bool
reaches none i = false
reaches (some s) i = leb i s

unfoldable pub is_stripped : Defined → Option ℕ → ℕ → Bool
is_stripped d severity i = get_or d.strip_log i false || reaches severity i

-- `MALC_SEV_WRAP` of the six names.
abbrev pub severities : List ℕ
severities = sev_debug ∷ sev_trace ∷ sev_note ∷ sev_warning ∷ sev_error ∷ sev_critical ∷ []

-- `malc_debug_i_if` and its five likes, from what the build defines: a stripped call is
-- `malc_stripped_entry`. The other macros pass 1 as the condition, or the logger of
-- `get_malc_instance`.
unfoldable pub log_i_if :
    Defined
    → Option ℕ
    → ℕ
    → Build
    → IntegerMath
    → (q : Mpmc) → ℕ
    → Bool
    → ℕ
    → List ℕ
    → ℕ
    → State
    → Memory q
    → ℕ
    → (ℕ → Option ℕ)
    → Bool
    → ℕ
    → List Value
    → Option (Called q)
unfolding is_stripped log_if_private
log_i_if d severity i b im q sizeof_qnode cond min_severity format entry state m current bl_alloc
      timestamp now vs =
    if is_stripped d severity i
    then some (record { mem = m; committed = none; result = err nothing_to_do; freed = [] })
    else log_if_private b im q sizeof_qnode cond (get_or severities i 0) min_severity format entry
        state m current bl_alloc timestamp now vs

-- Once the severity is defined, no other block may define it.
defined_once :
    (i : ℕ) (strip : List Bool) (s : ℕ) (severity : Option ℕ) (j : ℕ)
    → define_severity i strip (some s) ≡ some severity
    → (severity ≡ some s) × (get_or strip j false ≡ false)
unfolding define_severity
defined_once i [] s severity j e = (sym (some_inj e), refl)
  where
    some_inj : {x y : Option ℕ} → some x ≡ some y → x ≡ y
    some_inj h = cc
defined_once i (true ∷ strip) s severity j e = absurd (cc)
defined_once i (false ∷ strip) s severity zero e =
    ((defined_once (suc i) strip s severity 0 e).0, refl)
defined_once i (false ∷ strip) s severity (suc j) e = defined_once (suc i) strip s severity j e

-- A macro that the build defines is that of the severity.
defined_severity :
    (i : ℕ) (strip : List Bool) (severity severity' : Option ℕ) (j : ℕ)
    → define_severity i strip severity ≡ some severity'
    → get_or strip j false ≡ true
    → severity' ≡ some (i + j)
unfolding define_severity
defined_severity i [] severity severity' j e h = absurd (false≢true h)
defined_severity i (true ∷ strip) none severity' zero e h =
    (defined_once (suc i) strip i severity' 0 e).0 ∙ ap some (omega arith)
defined_severity i (true ∷ strip) none severity' (suc j) e h =
    absurd (false≢true (sym (defined_once (suc i) strip i severity' j e).1 ∙ h))
defined_severity i (true ∷ strip) (some s) severity' j e h = absurd (cc)
defined_severity i (false ∷ strip) severity severity' zero e h = absurd (false≢true h)
defined_severity i (false ∷ strip) severity severity' (suc j) e h =
    defined_severity (suc i) strip severity severity' j e h ∙ ap some (omega arith)

with_all-keeps :
    (all : Bool) (strip : List Bool) (j : ℕ)
    → get_or strip j false ≡ true
    → get_or (with_all all strip) j false ≡ true
with_all-keeps all [] j h = h
with_all-keeps all (c ∷ []) zero h = rw (h) refl
with_all-keeps all (c ∷ []) (suc j) h = h
with_all-keeps all (c ∷ d ∷ strip) zero h = h
with_all-keeps all (c ∷ d ∷ strip) (suc j) h = with_all-keeps all (d ∷ strip) j h

with_all-last :
    (strip : List Bool) (j : ℕ) → j + 1 ≡ length strip → get_or (with_all true strip) j false ≡ true
with_all-last [] j h = absurd (omega arith)
with_all-last (true ∷ []) zero h = refl
with_all-last (false ∷ []) zero h = refl
with_all-last (c ∷ []) (suc j) h = absurd (omega arith)
with_all-last (c ∷ d ∷ strip) zero h = absurd (omega arith)
with_all-last (c ∷ d ∷ strip) (suc j) h = with_all-last (d ∷ strip) j (omega arith)

module _ (d : Defined) (severity : Option ℕ) (compiles : strip_log_severity d ≡ some severity) where
  -- The stripped severities are all those up to one.
  stripped_up_to : (i : ℕ) → is_stripped d severity i ≡ reaches severity i
  unfolding is_stripped strip_log_severity
  stripped_up_to i = elim (Bool-cases (get_or d.strip_log i false)) [
    | inl own ↦ rw (own) (
        sym (
          ap (λ s. reaches s i)
            (defined_severity 0 (with_all d.strip_all d.strip_log) d.strip_log_severity severity i
              compiles (with_all-keeps d.strip_all d.strip_log i own))
          ∙ refl_leb i))
    | inr other ↦ rw (other) refl
  ]
    where
      refl_leb : (i : ℕ) → leb i (0 + i) ≡ true
      refl_leb i = ground arith

  -- When the header compiles, a macro that the build defines for a severity strips this severity and
  -- all below it, and none above, whatever other macros there are.
  pub is_stripped-reaches :
      (i : ℕ) → get_or d.strip_log i false ≡ true → (j : ℕ) → is_stripped d severity j ≡ leb j i
  unfolding strip_log_severity
  is_stripped-reaches i own j =
      stripped_up_to j
      ∙ ap (λ s. reaches s j)
          (defined_severity 0 (with_all d.strip_all d.strip_log) d.strip_log_severity severity i
            compiles (with_all-keeps d.strip_all d.strip_log i own))
      ∙ ap (leb j) (omega arith)

  -- `MALC_STRIP_ALL` strips every severity.
  pub strip_all-reaches :
      (i : ℕ) → d.strip_all ≡ true → length d.strip_log ≡ 6 → i < 6 → reaches severity i ≡ true
  unfolding strip_log_severity
  strip_all-reaches i all six h =
      ap (λ s. reaches s i)
        (defined_severity 0 (with_all d.strip_all d.strip_log) d.strip_log_severity severity 5
          compiles (rw (all) (with_all-last d.strip_log 5 (omega (arith, six)))))
      ∙ ground arith

-- ===== src/Validation/Aligned.antt =====
-- A call that passes include/malcpp/impl/compile_time_validation.hpp: its arguments and its types in the
-- order in which the consumer pairs them.
use mathlib.Core.Path.{subst}
use mathlib.Core.Bool.{false≢true}
use mini_async_log_c.Common.{
  ℕ, suc, ◌≡◌, ◌≢◌, refl, sym, ◌∙◌, Bool, true, false, inl, inr, ◌⊎◌, Bool-cases, some, List, [],
  ◌∷◌, ◌++◌, map, if◌then◌else◌, All, arith,
}
use mini_async_log_c.Serial.Values.{
  Build, Value, i8, refdtor, comp32, comp64, Fits, type_code, type_refdtor, LogArgument,
}
use mini_async_log_c.Serial.Wire.{args_of}
use mini_async_log_c.EntryParser.Args.{is_obj}
use mini_async_log_c.EntryParser.Entry.{typed}
use mini_async_log_c.Validation.LoggedTypes.{
  Builtin, uint8, LoggedType, builtin, malc_refdtor, builtin_type_id, type_id, is_refdtor,
}
use mini_async_log_c.Validation.Sound.{printed_types}
use mini_async_log_c.Validation.Printed.{HasTypes}
use mini_async_log_c.Validation.Compiles.{accepted}
use mini_async_log_c.Validation.References.{
  count, validate_references-last, validate_references-none,
}
use mini_async_log_c.Validation.{success, success_with_refs, code, get_code, validate_references}

-- The arguments of a call are values of its types.
abbrev pub CalledWith : List LoggedType → List Value → Type 0
CalledWith [] [] = Unit
CalledWith [] (v ∷ vs) = ⊥
CalledWith (t ∷ types) [] = ⊥
CalledWith (t ∷ types) (v ∷ vs) = (type_id t ≡ type_code v) × CalledWith types vs

-- No argument is behind a destructor.
abbrev pub IsAligned : List LoggedType → Type 0
IsAligned [] = Unit
IsAligned (t ∷ types) = (is_refdtor t ≡ true → types ≡ []) × IsAligned types

refdtor_id : (t : LoggedType) → is_refdtor t ≡ true → type_id t ≡ type_refdtor
refdtor_id malc_refdtor e = refl
refdtor_id t e = absurd (false≢true e)

builtin_not_refdtor : (b : Builtin) → builtin_type_id b ≢ type_refdtor
builtin_not_refdtor uint8 e = omega arith
builtin_not_refdtor _ e = omega arith

id_refdtor : (t : LoggedType) → type_id t ≡ type_refdtor → is_refdtor t ≡ true
id_refdtor malc_refdtor e = refl
id_refdtor (builtin b) e = absurd (builtin_not_refdtor b e)
id_refdtor t e = absurd (omega arith)

not_refdtor : (t : LoggedType) (c : ℕ) → type_id t ≡ c → c ≢ type_refdtor → is_refdtor t ≡ false
not_refdtor t c e ne = elim (Bool-cases (is_refdtor t)) [
  | inl is ↦ absurd (ne (sym e ∙ refdtor_id t is))
  | inr is_not ↦ is_not
]

none_behind :
    (c : ℕ) (types : List LoggedType) (vs : List Value)
    → types ≡ []
    → CalledWith types vs
    → HasTypes (typed (c ∷ map type_code vs) (args_of vs)) (printed_types types)
none_behind c [] [] e called = tt
none_behind c [] (v ∷ vs) e called = absurd called
none_behind c (t ∷ types) vs e called = absurd (cc)

pub typed-HasTypes :
    (b : Build) (types : List LoggedType) (vs : List Value)
    → All (Fits b) vs
    → CalledWith types vs
    → IsAligned types
    → HasTypes (typed (map type_code vs) (args_of vs)) (printed_types types)
typed-HasTypes b [] [] f called al = tt
typed-HasTypes b [] (v ∷ vs) f called al = absurd called
typed-HasTypes b (t ∷ types) [] f called al = absurd called
typed-HasTypes b (t ∷ types) (refdtor g c ∷ vs) f called al =
    let is = id_refdtor t called.0 in rw (is) (none_behind type_refdtor types vs (al.0 is) called.1)
typed-HasTypes b (t ∷ types) (comp32 c ∷ vs) f called al = absurd f.0
typed-HasTypes b (t ∷ types) (comp64 c ∷ vs) f called al = absurd f.0
typed-HasTypes b (t ∷ types) (v ∷ vs) f called al =
    rw (not_refdtor t (type_code v) called.0 (λ e. absurd (omega arith)))
      (sym called.0, typed-HasTypes b types vs f.1 called.1 al.1)

none_counted : (b : Bool) (n : ℕ) → (if b then suc n else n) ≡ 0 → (b ≡ false) × (n ≡ 0)
none_counted true n e = absurd (omega arith)
none_counted false n e = (refl, e)

-- The destructor of a call that compiles is its last argument, if it has one.
last-IsAligned :
    (front types : List LoggedType)
    → types ≡ front ++ (malc_refdtor ∷ [])
    → count is_refdtor front ≡ 0
    → IsAligned types
last-IsAligned front types e none_in = subst IsAligned (sym e) (at front none_in)
  where
    at :
        (front : List LoggedType)
        → count is_refdtor front ≡ 0
        → IsAligned (front ++ (malc_refdtor ∷ []))
    at [] n = ((λ e. refl), tt)
    at (t ∷ front) n =
        let (is_not, none_in) = none_counted (is_refdtor t) (count is_refdtor front) n in
        ((λ is. absurd (false≢true (sym is_not ∙ is))), at front none_in)

none-IsAligned : (types : List LoggedType) → count is_refdtor types ≡ 0 → IsAligned types
none-IsAligned [] n = tt
none-IsAligned (t ∷ types) n =
    let (is_not, none_in) = none_counted (is_refdtor t) (count is_refdtor types) n in
    ((λ is. absurd (false≢true (sym is_not ∙ is))), none-IsAligned types none_in)

-- The two successes of a call that compiles.
pub accepted-successes :
    (refserr fmtstrerr c : ℕ)
    → accepted refserr fmtstrerr ≡ some c
    → (get_code fmtstrerr ≡ code success)
      × ((get_code refserr ≡ code success) ⊎ (get_code refserr ≡ code success_with_refs))
accepted-successes refserr fmtstrerr c e = ground arith

pub compiled-IsAligned :
    (types : List LoggedType)
    → (get_code (validate_references types) ≡ code success)
      ⊎ (get_code (validate_references types) ≡ code success_with_refs)
    → IsAligned types
compiled-IsAligned types (inl e) = none-IsAligned types (validate_references-none types e).1
compiled-IsAligned types (inr e) =
    let (front, whole, none_in, some_ref) = validate_references-last types e in
    last-IsAligned front types whole none_in

pub objectless :
    (codes : List ℕ) (args : List LogArgument)
    → All (λ c. is_obj c ≡ false) codes
    → All (λ a. is_obj a.0 ≡ false) (typed codes args)
objectless codes [] h = tt
objectless [] (a ∷ args) h = (refl, objectless [] args tt)
objectless (c ∷ codes) (a ∷ args) h = (h.0, objectless codes args h.1)

pub codes_objectless : (vs : List Value) → All (λ c. is_obj c ≡ false) (map type_code vs)
codes_objectless [] = tt
codes_objectless (i8 v ∷ vs) = (refl, codes_objectless vs)
codes_objectless (v ∷ vs) = (refl, codes_objectless vs)

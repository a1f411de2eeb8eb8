-- ===== src/LogCall/References.antt =====
-- What a call of a log macro does with the references of its arguments.
use mathlib.Core.Path.{subst}
use mathlib.Core.Bool.{false≢true}
use mini_async_log_c.Common.{
  ℕ, ◌+◌, ◌<◌, ◌≡◌, refl, sym, ap, ◌∙◌, Bool, true, not, ◌&&◌, ◌||◌, inl, inr, ◌⊎◌, List, [], ◌∷◌,
  ◌++◌, append_assoc, append-nil, ◌==◌, lt→ltb, length, arith,
}
use mini_async_log_c.Serial.Values.{Value, strref, memref, refdtor, MalcRef, RefDtor}
use mini_async_log_c.Serial.Wire.{refs_of, refdtor_of}
use mini_async_log_c.Serial.Deserialize.{no_refdtor}
use mini_async_log_c.EntryParser.Entry.{Freed, refdtor_call}
use mini_async_log_c.LogCall.{
  get_cleanup_count, get_ref_count, last_is_cleanup, validate_ref_and_cleanup, fill_ref_array,
  ref_array_dealloc, deallocate_in_place,
}

-- The array that is filled: the references in their order, as many as it has room for.
fill_ref_array-refs_of :
    (refs : List MalcRef) (vs : List Value) → fill_ref_array refs vs ≡ refs ++ refs_of vs
unfolding fill_ref_array
fill_ref_array-refs_of refs [] = sym (append-nil refs)
fill_ref_array-refs_of refs (strref p n ∷ vs) =
    fill_ref_array-refs_of (refs ++ (record { ref = p; size = n } ∷ [])) vs
    ∙ append_assoc refs (record { ref = p; size = n } ∷ []) (refs_of vs)
fill_ref_array-refs_of refs (memref p n ∷ vs) =
    fill_ref_array-refs_of (refs ++ (record { ref = p; size = n } ∷ [])) vs
    ∙ append_assoc refs (record { ref = p; size = n } ∷ []) (refs_of vs)
fill_ref_array-refs_of refs (v ∷ vs) = fill_ref_array-refs_of refs vs

pub length-refs_of : (vs : List Value) → length (refs_of vs) ≡ get_ref_count vs
unfolding get_ref_count
length-refs_of [] = refl
length-refs_of (strref p n ∷ vs) = omega (arith, length-refs_of vs)
length-refs_of (memref p n ∷ vs) = omega (arith, length-refs_of vs)
length-refs_of (v ∷ vs) = omega (arith, length-refs_of vs)

-- A call with references: its destructor is the last argument and the only one.
pub data HasRefs : List Value → Type 0 where
  has_refs :
      (front : List Value) (f c : ℕ)
      → get_cleanup_count front ≡ 0
      → 0 < get_ref_count front
      → HasRefs (front ++ (refdtor f c ∷ []))

get_cleanup_count-last :
    (vs : List Value) (f c : ℕ)
    → get_cleanup_count (vs ++ (refdtor f c ∷ [])) ≡ get_cleanup_count vs + 1
unfolding get_cleanup_count
get_cleanup_count-last [] f c = refl
get_cleanup_count-last (v ∷ vs) f c = omega (arith, get_cleanup_count-last vs f c)

pub get_ref_count-last :
    (vs : List Value) (f c : ℕ) → get_ref_count (vs ++ (refdtor f c ∷ [])) ≡ get_ref_count vs
unfolding get_ref_count
get_ref_count-last [] f c = refl
get_ref_count-last (v ∷ vs) f c = omega (arith, get_ref_count-last vs f c)

abbrev EndsCleanup : List Value → Type 0
EndsCleanup vs = (front : List Value) × (f : ℕ) × (c : ℕ) × (vs ≡ front ++ (refdtor f c ∷ []))

last-EndsCleanup : (vs : List Value) → last_is_cleanup vs ≡ true → EndsCleanup vs
unfolding last_is_cleanup
last-EndsCleanup [] e = absurd (false≢true e)
last-EndsCleanup (refdtor f c ∷ []) e = ([], f, c, refl)
last-EndsCleanup (v ∷ []) e = absurd (false≢true e)
last-EndsCleanup (v ∷ w ∷ vs) e =
    let (front, f, c, whole) = last-EndsCleanup (w ∷ vs) e in (v ∷ front, f, c, ap (◌∷◌ v) whole)

counts :
    (c r : ℕ) (last : Bool)
    → (((c == 0 && r == 0) || (c == 1 && not (r == 0))) && (c == 0 || last)) ≡ true
    → ((c ≡ 0) × (r ≡ 0)) ⊎ ((c ≡ 1) × (0 < r) × (last ≡ true))
counts c r last e = ground arith

-- What the assertions let through.
pub validated :
    (vs : List Value)
    → validate_ref_and_cleanup vs ≡ true
    → ((get_cleanup_count vs ≡ 0) × (get_ref_count vs ≡ 0)) ⊎ HasRefs vs
unfolding validate_ref_and_cleanup
validated vs e = elim (counts (get_cleanup_count vs) (get_ref_count vs) (last_is_cleanup vs) e) [
  | inl none ↦ inl none
  | inr (one, some, last) ↦
      let (front, f, c, whole) = last-EndsCleanup vs last in
      inr (
        subst HasRefs (sym whole) (
          has_refs front f c
            (omega (arith, one, ap get_cleanup_count whole, get_cleanup_count-last front f c))
            (omega (arith, some, ap get_ref_count whole, get_ref_count-last front f c))))
]

ref_array_dealloc-last :
    (refs : List MalcRef) (front : List Value) (f c : ℕ)
    → get_cleanup_count front ≡ 0
    → ref_array_dealloc refs (front ++ (refdtor f c ∷ [])) ≡ refdtor_call f c refs ∷ []
unfolding ref_array_dealloc get_cleanup_count
ref_array_dealloc-last refs [] f c h = refl
ref_array_dealloc-last refs (refdtor g d ∷ front) f c h = absurd (omega arith)
ref_array_dealloc-last refs (v ∷ front) f c h = ref_array_dealloc-last refs front f c (omega arith)

pub refs_of-last :
    (front : List Value) (f c : ℕ) → refs_of (front ++ (refdtor f c ∷ [])) ≡ refs_of front
refs_of-last [] f c = refl
refs_of-last (strref p n ∷ front) f c =
    ap (◌∷◌ (record { ref = p; size = n })) (refs_of-last front f c)
refs_of-last (memref p n ∷ front) f c =
    ap (◌∷◌ (record { ref = p; size = n })) (refs_of-last front f c)
refs_of-last (v ∷ front) f c = refs_of-last front f c

pub refdtor_of-last :
    (d : RefDtor) (front : List Value) (f c : ℕ)
    → refdtor_of d (front ++ (refdtor f c ∷ [])) ≡ record { func = f; context = c }
refdtor_of-last d [] f c = refl
refdtor_of-last d (refdtor g e ∷ front) f c =
    refdtor_of-last (record { func = g; context = e }) front f c
refdtor_of-last d (v ∷ front) f c = refdtor_of-last d front f c

pub refdtor_of-none :
    (d : RefDtor) (vs : List Value) → get_cleanup_count vs ≡ 0 → refdtor_of d vs ≡ d
unfolding get_cleanup_count
refdtor_of-none d [] h = refl
refdtor_of-none d (refdtor g e ∷ vs) h = absurd (omega arith)
refdtor_of-none d (v ∷ vs) h = refdtor_of-none d vs (omega arith)

-- What the call owes: the destructor of its references, once, with all of them in their order.
abbrev pub freed_by : RefDtor → List MalcRef → List Freed
freed_by d [] = []
freed_by d (r ∷ refs) = refdtor_call d.func d.context (r ∷ refs) ∷ []

abbrev pub owed : List Value → List Freed
owed vs = freed_by (refdtor_of no_refdtor vs) (refs_of vs)

pub no_refs : (refs : List MalcRef) → length refs ≡ 0 → refs ≡ []
no_refs [] h = refl
no_refs (r ∷ refs) h = absurd (omega arith)

some_refs :
    (d : RefDtor) (refs : List MalcRef)
    → 0 < length refs
    → freed_by d refs ≡ refdtor_call d.func d.context refs ∷ []
some_refs d [] h = absurd (omega arith)
some_refs d (r ∷ refs) h = refl

pub owed-none : (vs : List Value) → get_ref_count vs ≡ 0 → owed vs ≡ []
owed-none vs h =
    ap (freed_by (refdtor_of no_refdtor vs)) (no_refs (refs_of vs) (length-refs_of vs ∙ h))

pub owed-last :
    (front : List Value) (f c : ℕ)
    → 0 < get_ref_count front
    → owed (front ++ (refdtor f c ∷ [])) ≡ refdtor_call f c (refs_of front) ∷ []
owed-last front f c h =
    rw (refs_of-last front f c, refdtor_of-last no_refdtor front f c)
      (some_refs (record { func = f; context = c }) (refs_of front)
        (omega (arith, h, length-refs_of front)))

deallocate_in_place-last : (vs : List Value) → HasRefs vs → deallocate_in_place vs ≡ owed vs
unfolding deallocate_in_place
deallocate_in_place-last _ (has_refs front f c none_in some) =
    rw
      (
        deallocate_in_place,
        get_ref_count-last front f c,
        lt→ltb 0 (get_ref_count front) some,
        fill_ref_array-refs_of [] (front ++ (refdtor f c ∷ [])),
        refs_of-last front f c,
      )
      (ref_array_dealloc-last (refs_of front) front f c none_in)
    ∙ sym (owed-last front f c some)

-- A call that is not logged runs the destructor that it owes.
pub deallocate_in_place-owed :
    (vs : List Value) → validate_ref_and_cleanup vs ≡ true → deallocate_in_place vs ≡ owed vs
unfolding deallocate_in_place
deallocate_in_place-owed vs e = elim (validated vs e) [
  | inl (none, no_ref) ↦ rw (deallocate_in_place, no_ref) (sym (owed-none vs no_ref))
  | inr refs ↦ deallocate_in_place-last vs refs
]

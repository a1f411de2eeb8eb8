-- ===== src/LogCall/Agree.antt =====
-- The calls of the log macros in C and in C++ do the same: include/malc/impl/c11.h and
-- include/malcpp/impl/c++11.hpp.
use mathlib.Core.Bool.{false≢true}
use mini_async_log_c.Common.{
  ℕ, ◌+◌, ◌%◌, ◌^◌, ◌<◌, ◌≡◌, ◌≢◌, refl, sym, ap, ◌∙◌, Bool, true, false, not, ◌&&◌, inl, inr,
  Bool-cases, Option, none, some, List, [], ◌∷◌, ◌++◌, append_assoc, append-nil, map, leb, ◌==◌,
  ==_ne, lt→ltb, length, All, Result, ok, err, arith,
}
use mini_async_log_c.Common.BaseLibrary.{IntegerMath}
use mini_async_log_c.Serial.Values.{
  Build, Value, strref, memref, refdtor, MalcRef, RefDtor, type_code,
}
use mini_async_log_c.Serial.Wire.{compress_count, total_compress_count, refs_of}
use mini_async_log_c.Serial.Encode.{
  Serializer, transform, compress, payload_size, serialize_all, serialize,
}
use mini_async_log_c.Memory.Bounded.{Mpmc}
use mini_async_log_c.Memory.Sources.{Memory}
use mini_async_log_c.EntryParser.Entry.{refdtor_call}
use mini_async_log_c.Validation.LoggedTypes.{LoggedType, type_id}
use mini_async_log_c.Validation.{
  success, success_with_refs, code, get_code, validate, validate_references,
}
use mini_async_log_c.Validation.Report.{static_arg_validation}
use mini_async_log_c.Validation.Compiles.{accepted, static_arg_validation-accepted}
use mini_async_log_c.Validation.Aligned.{CalledWith, accepted-successes}
use mini_async_log_c.Logger.{State, Prepared}
use mini_async_log_c.LogCall.{
  create_const_entry, get_ref_count, validate_ref_and_cleanup, deallocate_in_place, commit,
  log_if_private,
}
use mini_async_log_c.LogCall.Cpp.{
  count_compressed, msgdata, run_refdtor, try_deallocate_refvalues, deallocate_refs, has_references,
  get_payload_size, serialize_values, finish, log, log_if,
}
use mini_async_log_c.LogCall.References.{
  HasRefs, has_refs, validated, owed, owed-none, owed-last, deallocate_in_place-owed,
  length-refs_of, get_ref_count-last,
}
use mini_async_log_c.LogCall.Validated.{validate_references-agrees}

-- The destructors that a call passes are functions.
abbrev pub HasFunction : Value → Type 0
HasFunction (refdtor f c) = f ≢ 0
HasFunction _ = Unit

pub last-HasFunction :
    (front : List Value) (f c : ℕ) → All HasFunction (front ++ (refdtor f c ∷ [])) → f ≢ 0
last-HasFunction [] f c h = h.0
last-HasFunction (v ∷ front) f c h = last-HasFunction front f c h.1

try_deallocate_refvalues-last :
    (d : Option RefDtor) (refs : List MalcRef) (front : List Value) (f c : ℕ)
    → try_deallocate_refvalues d refs (front ++ (refdtor f c ∷ []))
      ≡ run_refdtor (some (record { func = f; context = c })) (refs ++ refs_of front)
unfolding try_deallocate_refvalues
try_deallocate_refvalues-last d refs [] f c =
    ap (run_refdtor (some (record { func = f; context = c }))) (sym (append-nil refs))
try_deallocate_refvalues-last d refs (strref p n ∷ front) f c =
    try_deallocate_refvalues-last none (refs ++ (record { ref = p; size = n } ∷ [])) front f c
    ∙ ap (run_refdtor (some (record { func = f; context = c })))
        (append_assoc refs _ (refs_of front))
try_deallocate_refvalues-last d refs (memref p n ∷ front) f c =
    try_deallocate_refvalues-last none (refs ++ (record { ref = p; size = n } ∷ [])) front f c
    ∙ ap (run_refdtor (some (record { func = f; context = c })))
        (append_assoc refs _ (refs_of front))
try_deallocate_refvalues-last d refs (refdtor g e ∷ front) f c =
    try_deallocate_refvalues-last (some (record { func = g; context = e })) refs front f c
try_deallocate_refvalues-last d refs (v ∷ front) f c =
    try_deallocate_refvalues-last none refs front f c

run_refdtor-some :
    (f c : ℕ) (refs : List MalcRef)
    → f ≢ 0
    → 0 < length refs
    → run_refdtor (some (record { func = f; context = c })) refs ≡ refdtor_call f c refs ∷ []
unfolding run_refdtor
run_refdtor-some f c refs ne h = rw (run_refdtor, lt→ltb 0 (length refs) h, ==_ne ne) refl

deallocate_refs-last :
    (vs : List Value)
    → HasRefs vs
    → All HasFunction vs
    → deallocate_refs (not (get_ref_count vs == 0)) vs ≡ owed vs
unfolding deallocate_refs
deallocate_refs-last _ (has_refs front f c none_in refs) h =
    rw (deallocate_refs, get_ref_count-last front f c, ==_ne (pos (get_ref_count front) refs))
      (try_deallocate_refvalues-last none [] front f c)
    ∙ run_refdtor-some f c (refs_of front) (last-HasFunction front f c h)
        (omega (arith, refs, length-refs_of front))
    ∙ sym (owed-last front f c refs)
  where
    pos : (n : ℕ) → 0 < n → n ≢ 0
    pos n h e = omega arith

-- Where a call compiles, its references are freed as those of C.
deallocate_refs-owed :
    (vs : List Value)
    → validate_ref_and_cleanup vs ≡ true
    → All HasFunction vs
    → deallocate_refs (not (get_ref_count vs == 0)) vs ≡ owed vs
unfolding deallocate_refs
deallocate_refs-owed vs e h = elim (validated vs e) [
  | inl (no_cleanup, no_ref) ↦ rw (deallocate_refs, no_ref) (sym (owed-none vs no_ref))
  | inr refs ↦ deallocate_refs-last vs refs h
]

abbrev build : Bool → ℕ → Build
build cmp p = record { compression = cmp; ptr_bytes = p }

-- What a value is serialized as does not matter to its references.
try_deallocate_refvalues-transform :
    (cmp : Bool) (p : ℕ) (im : IntegerMath) (d : Option RefDtor) (refs : List MalcRef)
    (vs : List Value)
    → try_deallocate_refvalues d refs (map (transform (build cmp p) im) vs)
      ≡ try_deallocate_refvalues d refs vs
unfolding try_deallocate_refvalues transform compress
try_deallocate_refvalues-transform true p im d refs [] = refl
try_deallocate_refvalues-transform true p im d refs (strref a n ∷ vs) =
    try_deallocate_refvalues-transform true p im none _ vs
try_deallocate_refvalues-transform true p im d refs (memref a n ∷ vs) =
    try_deallocate_refvalues-transform true p im none _ vs
try_deallocate_refvalues-transform true p im d refs (refdtor f c ∷ vs) =
    try_deallocate_refvalues-transform true p im (some (record { func = f; context = c })) refs vs
try_deallocate_refvalues-transform true p im d refs (v ∷ vs) =
    try_deallocate_refvalues-transform true p im none refs vs
try_deallocate_refvalues-transform false p im d refs vs =
    ap (try_deallocate_refvalues d refs) (same vs)
  where
    same : (vs : List Value) → map (transform (build false p) im) vs ≡ vs
    same [] = refl
    same (v ∷ vs) = ap (◌∷◌ v) (same vs)

deallocate_refs-transform :
    (b : Build) (im : IntegerMath) (has : Bool) (vs : List Value)
    → deallocate_refs has (map (transform b im) vs) ≡ deallocate_refs has vs
unfolding deallocate_refs
deallocate_refs-transform b im false vs = refl
deallocate_refs-transform b im true vs =
    try_deallocate_refvalues-transform b.compression b.ptr_bytes im none [] vs

-- The constants of the entry.
types-codes :
    (types : List LoggedType) (vs : List Value)
    → CalledWith types vs
    → map type_id types ≡ map type_code vs
types-codes [] [] h = refl
types-codes [] (v ∷ vs) h = absurd h
types-codes (t ∷ types) [] h = absurd h
types-codes (t ∷ types) (v ∷ vs) h = rw (h.0) (ap (◌∷◌ (type_code v)) (types-codes types vs h.1))

add_mod :
    (current n total : ℕ)
    → (current % 2 ^ 16 + n + total) % 2 ^ 16 ≡ (current + (n + total)) % 2 ^ 16
add_mod current n total = omega arith

count_compressed-total :
    (p : ℕ) (types : List ℕ) (current : ℕ)
    → count_compressed (build true p) types (current % 2 ^ 16)
      ≡ (current + total_compress_count (build true p) types) % 2 ^ 16
unfolding count_compressed total_compress_count
count_compressed-total p [] current = omega arith
count_compressed-total p (ch ∷ types) current =
    let n = compress_count (build true p) ch in
    count_compressed-total p types (current % 2 ^ 16 + n)
    ∙ add_mod current n (total_compress_count (build true p) types)

none_compressed :
    (p : ℕ) (types : List ℕ)
    → (count_compressed (build false p) types 0 ≡ 0)
      × (total_compress_count (build false p) types ≡ 0)
unfolding count_compressed total_compress_count compress_count
none_compressed p [] = (refl, refl)
none_compressed p (ch ∷ types) = (refl, omega (arith, (none_compressed p types).1))

count_compressed-0 :
    (cmp : Bool) (p : ℕ) (types : List ℕ)
    → count_compressed (build cmp p) types 0 ≡ total_compress_count (build cmp p) types % 2 ^ 16
count_compressed-0 true p types =
    count_compressed-total p types 0
    ∙ ap (λ n. n % 2 ^ 16) (zero_add (total_compress_count (build true p) types))
  where
    zero_add : (n : ℕ) → 0 + n ≡ n
    zero_add n = omega arith
count_compressed-0 false p types =
    (none_compressed p types).0 ∙ sym (ap (λ n. n % 2 ^ 16) (none_compressed p types).1)

pub msgdata-create_const_entry :
    (b : Build) (sev : ℕ) (format : List ℕ) (types : List LoggedType) (vs : List Value)
    → CalledWith types vs
    → msgdata b sev format types ≡ create_const_entry b sev format vs
unfolding msgdata create_const_entry
msgdata-create_const_entry b sev format types vs called = rw (types-codes types vs called) (
    ap
      (λ n. record {
        format = format;
        severity = sev % 2 ^ 8;
        types = map type_code vs;
        compressed_count = n;
      })
      (count_compressed-0 b.compression b.ptr_bytes (map type_code vs)))

and_true : (v r : Bool) → (v && r) ≡ true → v ≡ true
and_true true r e = refl
and_true false r e = absurd (false≢true e)

accepted-code :
    (refserr fmtstrerr c : ℕ) → accepted refserr fmtstrerr ≡ some c → get_code refserr ≡ c
accepted-code refserr fmtstrerr c e = ground arith

-- What the compiler knows of the references of a call that compiles.
pub compiled-references :
    (types : List LoggedType) (format : List ℕ) (c : ℕ) (vs : List Value)
    → 1 + length types < 2 ^ 16
    → static_arg_validation (validate_references types) (validate types format) ≡ some c
    → CalledWith types vs
    → (validate_ref_and_cleanup vs ≡ true)
      × (has_references types format ≡ not (get_ref_count vs == 0))
unfolding has_references
compiled-references types format c vs few e called = (
  valid,
  rw (has_references, e) (ap (λ x. x == code success_with_refs) (sym same) ∙ agrees.1)
      ∙ ap (λ v. v && not (get_ref_count vs == 0)) valid,
)
  where
    acc : accepted (validate_references types) (validate types format) ≡ some c
    acc = sym (static_arg_validation-accepted types format few) ∙ e

    same : get_code (validate_references types) ≡ c
    same = accepted-code (validate_references types) (validate types format) c acc

    agrees :
        ((get_code (validate_references types) == code success)
          ≡ (validate_ref_and_cleanup vs && get_ref_count vs == 0))
        × ((get_code (validate_references types) == code success_with_refs)
            ≡ (validate_ref_and_cleanup vs && not (get_ref_count vs == 0)))
    agrees = validate_references-agrees types vs called

    valid : validate_ref_and_cleanup vs ≡ true
    valid = elim (accepted-successes (validate_references types) (validate types format) c acc).1 [
      | inl done ↦ and_true _ _ (sym agrees.0 ∙ ap (λ x. x == code success) done)
      | inr done ↦ and_true _ _ (sym agrees.1 ∙ ap (λ x. x == code success_with_refs) done)
    ]

module _ (b : Build) (im : IntegerMath) where
  get_payload_size-payload_size :
      (vs : List Value) → get_payload_size b (map (transform b im) vs) ≡ payload_size b im vs
  unfolding get_payload_size payload_size
  get_payload_size-payload_size [] = refl
  get_payload_size-payload_size (v ∷ vs) = omega (arith, get_payload_size-payload_size vs)

  serialize_values-serialize_all :
      (s : Serializer) (vs : List Value)
      → serialize_values b s (map (transform b im) vs) ≡ serialize_all b im s vs
  unfolding serialize_values serialize_all
  serialize_values-serialize_all s [] = refl
  serialize_values-serialize_all s (v ∷ vs) =
      serialize_values-serialize_all (serialize b s (transform b im v)) vs

  module _ (q : Mpmc) (sizeof_qnode : ℕ) where
    finish-commit :
        (has : Bool) (vs : List Value) (o : Option (Memory q × Result Prepared))
        → deallocate_refs has vs ≡ deallocate_in_place vs
        → finish b im q sizeof_qnode has (map (transform b im) vs) o
          ≡ commit b im q sizeof_qnode vs o
    unfolding finish commit
    finish-commit has vs none e = refl
    finish-commit has vs (some (m, err x)) e =
        ap (λ f. some (record { mem = m; committed = none; result = err x; freed = f }))
          (deallocate_refs-transform b im has vs ∙ e)
    finish-commit has vs (some (m, ok p)) e =
        ap
          (λ s. some (record {
            mem = m;
            committed = some (record p { ext_ser = s });
            result = ok tt;
            freed = [];
          }))
          (serialize_values-serialize_all p.ext_ser vs)

    -- A call of the C++ interface that compiles does what the call in C does with the same values:
    -- it filters, prepares, serializes and commits the same entry with the same constants, gives the
    -- same result, and where the entry does not go to the logger it runs the same destructor on the
    -- same references. The arguments are values of the types, and no object; there are less than
    -- 2^16 - 1, and the destructor that is passed is a function.
    pub log_if-agrees :
        (cond : Bool) (sev min_severity : ℕ) (format : List ℕ) (types : List LoggedType) (entry : ℕ)
        (state : State) (m : Memory q) (current : ℕ) (bl_alloc : ℕ → Option ℕ) (timestamp : Bool)
        (now c : ℕ) (vs : List Value)
        → 1 + length types < 2 ^ 16
        → static_arg_validation (validate_references types) (validate types format) ≡ some c
        → CalledWith types vs
        → All HasFunction vs
        → log_if b im q sizeof_qnode cond sev min_severity format types entry state m current
            bl_alloc timestamp now vs
          ≡ log_if_private b im q sizeof_qnode cond sev min_severity format entry state m current
              bl_alloc timestamp now vs
    unfolding log_if log log_if_private
    log_if-agrees cond sev min_severity format types entry state m current bl_alloc timestamp now c
          vs few e called functions =
        elim (Bool-cases (cond && leb min_severity sev)) [
          | inl logged ↦
              rw
                (
                  logged,
                  msgdata-create_const_entry b sev format types vs called,
                  get_payload_size-payload_size vs,
                )
                (finish-commit (has_references types format) vs _ freed)
          | inr filtered ↦ rw (filtered) (
              ap (λ f. some (record { mem = m; committed = none; result = ok tt; freed = f }))
                freed)
        ]
      where
        known :
            (validate_ref_and_cleanup vs ≡ true)
            × (has_references types format ≡ not (get_ref_count vs == 0))
        known = compiled-references types format c vs few e called

        freed : deallocate_refs (has_references types format) vs ≡ deallocate_in_place vs
        freed =
            ap (λ h. deallocate_refs h vs) known.1
            ∙ deallocate_refs-owed vs known.0 functions
            ∙ sym (deallocate_in_place-owed vs known.0)

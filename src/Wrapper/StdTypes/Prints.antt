-- ===== src/Wrapper/StdTypes/Prints.antt =====
-- What the entry parser prints of the hooks of src/malcpp/c++_std_types.cpp.
use mini_async_log_c.Common.{
  ℕ, ◌-◌, ◌^◌, ◌%◌, min, ◌≤◌, ◌<◌, ◌≡◌, ◌≢◌, refl, sym, ap, ◌∙◌, true, false, inl, inr, Bool-cases,
  Option, none, some, List, [], ◌++◌, append_assoc, append-nil, if◌then◌else◌, ltb, leb, ==→eq,
  ==_ne, le→ltb, ◌==◌, length, get_or, Result, ok, err, BlErr, error, arith,
}
use mini_async_log_c.EntryParser.Types.{
  lit, separator, EntryParser, Printing, pure, raise, after, append_fmt_unchecked, append_made,
  clear_fmt,
}
use mini_async_log_c.EntryParser.FloatFormat.Laws.{Appends}
use mini_async_log_c.EntryParser.Objects.{
  flag, ObjLogData, str, builtin, GetData, done, push, obj_i8, obj_i64, obj_double, ObjTables,
  append_int_array, push_builtin, push_obj_data, run_getdata, append_obj,
}
use mini_async_log_c.EntryParser.Objects.Arrays.{with_str, append-fits}
use mini_async_log_c.Wrapper.StdTypes.{
  get_as_str, get_builtin, Elements, null_smart_ptr, headers, get_lit, push_last, push_then,
  header_data, vector_data, vector_smartptr_get_data,
}

-- A length is cut at the largest one that its field has.
pub get_as_str-cut : (ptr len : ℕ) → get_as_str ptr len ≡ str ptr (min len (2 ^ 16 - 1))
unfolding get_as_str
get_as_str-cut ptr len = ap (str ptr) (ground arith)

pub get_builtin-cut :
    (addr count type : ℕ) → get_builtin addr count type ≡ builtin addr type (min count (2 ^ 8 - 1))
unfolding get_builtin
get_builtin-cut addr count type = ap (builtin addr type) (ground arith)

-- The literals are in memory.
abbrev pub Holds : Printing → (List ℕ → ℕ) → List ℕ → Type 0
Holds out address t = out.bytes_at (address t) (length t) ≡ t

abbrev pub header : ℕ → List ℕ
header f = get_or headers f []

-- The elements that are printed between the header and the bracket: a vector has an address where it
-- has elements.
abbrev pub HasAddress : Option Elements → Type 0
HasAddress none = Unit
HasAddress (some v) = (v.size == 0) ≡ false → (v.start == 0) ≡ false

abbrev pub vector_text : Printing → List ℕ → ℕ → Option Elements → Result (List ℕ)
vector_text out spec f none = ok null_smart_ptr
vector_text out spec f (some v) =
    if v.size == 0
    then ok []
    else out.itostr_arr spec separator v.start (min v.size (2 ^ 8 - 1)) (leb obj_i8 f) (f % 4)

-- An array in its brackets; an error leaves the header.
abbrev pub bracketed : List ℕ → ℕ → Result (List ℕ) → EntryParser → EntryParser × Result (Unit {0})
bracketed spec f (ok t) ep =
    (record ep { str = ep.str ++ (header f ++ (t ++ lit "]")); fmt = [] }, ok tt)
bracketed spec f (err e) ep = (record ep { str = ep.str ++ header f; fmt = spec }, err error)

le→leb_double : (f : ℕ) → f ≤ obj_i64 → leb f obj_double ≡ true
le→leb_double f h = ground arith

le→leb_i64 : (f : ℕ) → f ≤ obj_i64 → leb f obj_i64 ≡ true
le→leb_i64 f h = ground arith

module _ (out : Printing) (fits : Appends out) (address : List ℕ → ℕ) (own : BlErr → ℕ) where
  push_obj_data-lit :
      (spec t : List ℕ) (ep : EntryParser)
      → Holds out address t
      → length t < 2 ^ 16
      → push_obj_data out spec (some (get_lit address own t)) ep
        ≡ some (with_str (clear_fmt ep) t, ok tt)
  unfolding push_obj_data
  push_obj_data-lit spec t ep held short =
      rw (get_as_str-cut (address t) (length t), whole, held)
        (append-fits out fits t (clear_fmt ep))
    where
      whole : min (length t) (2 ^ 16 - 1) ≡ length t
      whole = omega (arith, short)

  push_obj_data-header :
      (spec : List ℕ) (f : ℕ) (ep : EntryParser)
      → f ≤ obj_i64
      → out.bytes_at (address (header f)) 4 ≡ header f
      → push_obj_data out spec (some (header_data address own f)) ep
        ≡ some (with_str (clear_fmt ep) (header f), ok tt)
  unfolding push_obj_data header_data get_as_str
  push_obj_data-header spec f ep h held =
      rw (header_data, le→leb_double f h, get_as_str, held)
        (append-fits out fits (header f) (clear_fmt ep))

  -- What `ep->fmt` has after the elements.
  abbrev vector_fmt : List ℕ → Option Elements → List ℕ
  vector_fmt spec none = []
  vector_fmt spec (some v) = if v.size == 0 then [] else spec

  abbrev pushed :
      List ℕ → Option Elements → Result (List ℕ) → EntryParser → EntryParser × Result (Unit {0})
  pushed spec o (ok t) ep = (record ep { str = ep.str ++ t; fmt = vector_fmt spec o }, ok tt)
  pushed spec o (err e) ep = (record ep { fmt = spec }, err e)

  abbrev place : Elements → ℕ
  place v = if v.size == 0 then 0 else v.start

  push_obj_data-builtin :
      (spec : List ℕ) (f : ℕ) (v : Elements) (ep : EntryParser)
      → f ≤ obj_i64
      → push_obj_data out spec (some (vector_data address own f (some v))) ep
        ≡ push_builtin out spec (place v) f (min v.size (2 ^ 8 - 1)) (clear_fmt ep)
  unfolding push_obj_data vector_data
  push_obj_data-builtin spec f v ep h = ap (λ d. push_obj_data out spec (some d) ep) given
    where
      given : vector_data address own f (some v) ≡ builtin (place v) f (min v.size (2 ^ 8 - 1))
      given = rw (vector_data, le→leb_double f h) (get_builtin-cut (place v) v.size f)

  push_obj_data-vector :
      (spec : List ℕ) (f : ℕ) (o : Option Elements) (ep : EntryParser)
      → f ≤ obj_i64
      → Holds out address null_smart_ptr
      → HasAddress o
      → push_obj_data out spec (some (vector_data address own f o)) ep
        ≡ some (pushed spec o (vector_text out spec f o) ep)
  unfolding vector_data push_builtin append_int_array append_fmt_unchecked append_made
  push_obj_data-vector spec f none ep h held a =
      push_obj_data-lit spec null_smart_ptr ep held (omega arith)
  push_obj_data-vector spec f (some v) ep h held a =
      push_obj_data-builtin spec f v ep h
      ∙ elim (Bool-cases (v.size == 0)) [ inl e ↦ empty e | inr e ↦ shown e ]
    where
      count : ℕ
      count = min v.size (2 ^ 8 - 1)

      known : ltb obj_double f ≡ false
      known = le→ltb obj_double f (omega (arith, h))

      empty :
          (v.size == 0) ≡ true
          → push_builtin out spec (place v) f (min v.size (2 ^ 8 - 1)) (clear_fmt ep)
            ≡ some (pushed spec (some v) (vector_text out spec f (some v)) ep)
      empty e =
          rw (push_builtin, known, e, ==→eq v.size 0 e)
            (ap (λ t. some (record ep { str = t; fmt = [] }, ok tt)) (sym (append-nil ep.str)))

      at :
          (v.size == 0) ≡ false
          → (r : Result (List ℕ))
          → append_made out r (record ep { fmt = spec }) ≡ some (pushed spec (some v) r ep)
      at e (ok t) = rw (e) refl
      at e (err x) = refl

      some_count : (v.size == 0) ≡ false → (min v.size (2 ^ 8 - 1) == 0) ≡ false
      some_count e = ground arith

      shown :
          (v.size == 0) ≡ false
          → push_builtin out spec (place v) f (min v.size (2 ^ 8 - 1)) (clear_fmt ep)
            ≡ some (pushed spec (some v) (vector_text out spec f (some v)) ep)
      shown e =
          rw
            (
              push_builtin,
              known,
              e,
              some_count e,
              a e,
              le→leb_i64 f h,
              append_fmt_unchecked,
              fits [] spec,
            )
            (at e (
              out.itostr_arr spec separator v.start (min v.size (2 ^ 8 - 1)) (leb obj_i8 f)
                (f % 4)))

  run_getdata-push :
      (spec : List ℕ) (ld : ObjLogData) (next : Result (Unit {0}) → GetData) (ep : EntryParser)
      (r : EntryParser × Result (Unit {0}))
      → push_obj_data out spec (some ld) ep ≡ some r
      → run_getdata out spec (push (some ld) next) ep ≡ run_getdata out spec (next r.1) r.0
  unfolding run_getdata
  run_getdata-push spec ld next ep r e = rw (run_getdata, e) refl

  -- The hook of a smart pointer to a vector of integers prints the type, the elements as the base
  -- library prints them, of which there are 255 at most, and a bracket; or "nullptr" between the type
  -- and the bracket, when the pointer is null. An error at the elements comes back as an error of the
  -- object, and leaves the type behind the text that there was. No append fails, the literals are in
  -- memory, and a vector with elements has an address.
  pub append_obj-vector :
      (tables : ObjTables) (dereference : List ℕ → Option Elements) (spec : List ℕ) (table f : ℕ)
      (bytes : List ℕ) (ep : EntryParser)
      → tables.getdata table ≡ some (vector_smartptr_get_data address own dereference)
      → ((e : BlErr) → own e ≢ 0)
      → f ≤ obj_i64
      → out.bytes_at (address (header f)) 4 ≡ header f
      → Holds out address null_smart_ptr
      → Holds out address (lit "]")
      → HasAddress (dereference bytes)
      → append_obj out tables spec table (record { obj = bytes; extra = flag f }) ep
        ≡ some (bracketed spec f (vector_text out spec f (dereference bytes)) ep)
  unfolding append_obj run_getdata vector_smartptr_get_data
  append_obj-vector tables dereference spec table f bytes ep hook own_error h first null last a =
      rw (append_obj, hook) (ap closing run) ∙ at (vector_text out spec f (dereference bytes))
    where
      opened : EntryParser
      opened = with_str (clear_fmt ep) (header f)

      elements : Option Elements
      elements = dereference bytes

      -- What is pushed behind the elements, and what `append_obj` makes of the code.
      last_push : Result (Unit {0}) → GetData
      last_push r = elim r [
        | ok u ↦ push_last address own (get_lit address own (lit "]"))
        | err e ↦ done (own e)
      ]

      closing : Option (EntryParser × Result ℕ) → Option (EntryParser × Result (Unit {0}))
      closing x = after x (λ code. if code == 0 then pure tt else raise error)

      rest : EntryParser × Result (Unit {0}) → Option (EntryParser × Result (Unit {0}))
      rest r = closing (run_getdata out spec (last_push r.1) r.0)

      second : GetData
      second = push_then address own (vector_data address own f elements) (last_push (ok tt))

      run :
          run_getdata out spec
            (vector_smartptr_get_data address own dereference
              (record { obj = bytes; extra = flag f }))
            ep
          ≡ run_getdata out spec
              (last_push (pushed spec elements (vector_text out spec f elements) opened).1)
              (pushed spec elements (vector_text out spec f elements) opened).0
      run =
          run_getdata-push spec (header_data address own f)
            (λ r. elim r [ ok u ↦ second | err e ↦ done (own e) ]) ep _
            (push_obj_data-header spec f ep h first)
          ∙ run_getdata-push spec (vector_data address own f elements) last_push opened _
              (push_obj_data-vector spec f elements opened h null a)

      at :
          (r : Result (List ℕ))
          → rest (pushed spec elements r opened) ≡ some (bracketed spec f r ep)
      at (ok t) =
          rw
            (
              after,
              run_getdata,
              push_obj_data-lit spec (lit "]")
                  (record opened { str = opened.str ++ t; fmt = vector_fmt spec elements }) last
                  (omega arith),
            )
            (ap (λ s. some (record ep { str = s; fmt = [] }, ok tt)) (simp append_assoc))
      at (err e) = rw (==_ne (own_error e)) refl

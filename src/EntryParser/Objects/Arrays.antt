-- ===== src/EntryParser/Objects/Arrays.antt =====
-- The arrays of floating point numbers that objects push: `push_obj_data` of src/malc/entry_parser.c.
use mathlib.Core.Path.{fun_ext}
use mini_async_log_c.Common.{
  ℕ, zero, suc, ◌+◌, ◌<◌, ◌≡◌, refl, ap, ◌∙◌, some, List, [], ◌∷◌, ◌++◌, append-nil, append_assoc,
  length, length-append, lt→ltb, le→ltb, if◌then◌else◌, ◌==◌, ◌||◌, ok, arith,
}
use mini_async_log_c.EntryParser.Types.{separator, EntryParser, Printing, after, append, clear_fmt}
use mini_async_log_c.EntryParser.FloatFormat.{build_float_format}
use mini_async_log_c.EntryParser.FloatFormat.Laws.{Appends}
use mini_async_log_c.EntryParser.Objects.{
  builtin, obj_float, obj_double, print_at, separate, push_floats, push_builtin, push_obj_data,
}

-- Texts, each behind a separator, and texts with the separator between them.
abbrev pub behind_separators : List (List ℕ) → List ℕ
behind_separators [] = []
behind_separators (t ∷ ts) = separator ++ (t ++ behind_separators ts)

abbrev pub separated : List (List ℕ) → List ℕ
separated [] = []
separated (t ∷ ts) = t ++ behind_separators ts

module _ (out : Printing) where
  -- The elements from an index, as they are printed.
  abbrev pub elements : ℕ → ℕ → ℕ → ℕ → List ℕ → List (List ℕ)
  elements zero i type ptr fmt = []
  elements (suc count) i type ptr fmt =
      print_at out type ptr fmt i ∷ elements count (i + 1) type ptr fmt

  floats_as_doubles :
      (ptr count i prev_len : ℕ) (ep : EntryParser)
      → push_floats out count i obj_float ptr prev_len ep
        ≡ push_floats out count i obj_double ptr prev_len ep
  unfolding push_floats
  floats_as_doubles ptr zero i prev_len ep = refl
  floats_as_doubles ptr (suc count) i prev_len ep = ap (after (separate out prev_len ep)) (
      fun_ext (λ prev_len'. fun_ext (λ ep.
        ap (after (append out (print_at out obj_double ptr ep.fmt i) ep))
          (fun_ext (λ u. fun_ext (floats_as_doubles ptr count (i + 1) prev_len'))))))

  -- An element of the type `malc_obj_float` is read and printed as one of `malc_obj_double`: the test
  -- for floats compares with a code of another enumeration.
  pub push_obj_data-as_double :
      (spec : List ℕ) (ptr count : ℕ) (ep : EntryParser)
      → push_obj_data out spec (some (builtin ptr obj_float count)) ep
        ≡ push_obj_data out spec (some (builtin ptr obj_double count)) ep
  unfolding push_obj_data push_builtin
  push_obj_data-as_double spec ptr count ep =
      ap
        (λ k.
          if count == 0 || (ptr == 0)
          then some (clear_fmt ep, ok tt)
          else after (build_float_format out spec (clear_fmt ep)) k)
        (fun_ext (λ u. fun_ext (floats_as_doubles ptr count 0 (length ep.str))))

abbrev pub with_str : EntryParser → List ℕ → EntryParser
with_str ep t = record ep { str = ep.str ++ t }

module _ (out : Printing) (fits : Appends out) where
  pub append-fits : (t : List ℕ) (ep : EntryParser) → append out t ep ≡ some (with_str ep t, ok tt)
  unfolding append
  append-fits t ep = rw (append, fits ep.str t) refl

  separate-grown :
      (prev_len : ℕ) (ep : EntryParser)
      → prev_len < length ep.str
      → separate out prev_len ep ≡ some (with_str ep separator, ok (length ep.str))
  unfolding separate
  separate-grown prev_len ep h =
      rw (separate, lt→ltb prev_len (length ep.str) h, append-fits separator ep) refl

  separate-same :
      (ep : EntryParser) → separate out (length ep.str) ep ≡ some (ep, ok (length ep.str))
  unfolding separate
  separate-same ep = rw (le→ltb (length ep.str) (length ep.str) (omega arith)) refl

  module _ (type ptr : ℕ) (fmt : List ℕ)
      (shown : (i : ℕ) → 0 < length (print_at out type ptr fmt i)) where
    push_floats-grown :
        (count i prev_len : ℕ) (ep : EntryParser)
        → ep.fmt ≡ fmt
        → prev_len < length ep.str
        → push_floats out count i type ptr prev_len ep
          ≡ some (with_str ep (behind_separators (elements out count i type ptr fmt)), ok tt)
    unfolding push_floats
    push_floats-grown zero i prev_len ep e h = rw (push_floats, append-nil ep.str) refl
    push_floats-grown (suc count) i prev_len ep e h =
        rw
          (
            push_floats,
            separate-grown prev_len ep h,
            append-fits (print_at out type ptr ep.fmt i) (with_str ep separator),
            e,
          )
          (push_floats-grown count (i + 1) (length ep.str) (next ep (ep.str ++ separator)) refl
              (longer ep.str [] (print_at out type ptr fmt i))
            ∙ ap (λ t. some (next' ep t, ok tt))
                (joined ep.str separator (print_at out type ptr fmt i) _))
      where
        next : EntryParser → List ℕ → EntryParser
        next ep t = record ep { str = t ++ print_at out type ptr fmt i; fmt = fmt }

        next' : EntryParser → List ℕ → EntryParser
        next' ep t = record ep { str = t; fmt = fmt }

        joined : (a b c d : List ℕ) → ((a ++ b) ++ c) ++ d ≡ a ++ (b ++ (c ++ d))
        joined a b c d = simp append_assoc

        longer : (a b c : List ℕ) → length a < length ((a ++ (32 ∷ b)) ++ c)
        longer a b c = simp length-append (omega arith)

    -- Each element with a text, and a separator between any two of them, when no append fails and no
    -- element has an empty text.
    pub push_floats-separated :
        (count : ℕ) (ep : EntryParser)
        → ep.fmt ≡ fmt
        → push_floats out count 0 type ptr (length ep.str) ep
          ≡ some (with_str ep (separated (elements out count 0 type ptr fmt)), ok tt)
    unfolding push_floats
    push_floats-separated zero ep e = rw (push_floats, append-nil ep.str) refl
    push_floats-separated (suc count) ep e =
        rw (push_floats, separate-same ep, append-fits (print_at out type ptr ep.fmt 0) ep, e)
          (push_floats-grown count (0 + 1) (length ep.str)
              (next ep (ep.str ++ print_at out type ptr fmt 0)) refl
              (longer ep.str (print_at out type ptr fmt 0) (shown 0))
            ∙ ap (λ t. some (next ep t, ok tt)) (append_assoc ep.str _ _))
      where
        next : EntryParser → List ℕ → EntryParser
        next ep t = record ep { str = t; fmt = fmt }

        longer : (a b : List ℕ) → 0 < length b → length a < length (a ++ b)
        longer a b h = simp length-append (omega arith)

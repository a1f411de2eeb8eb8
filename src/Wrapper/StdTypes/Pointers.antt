-- ===== src/Wrapper/StdTypes/Pointers.antt =====
-- What the tables of smart pointers and of types with an output operator do with an object:
-- `dereference_smarptr` and `ostreamable_printer` of include/malcpp/impl/c++11_std_types.hpp.
use mini_async_log_c.Common.{
  ℕ, ◌≡◌, refl, Bool, true, false, Option, none, some, List, [], ◌++◌, if◌then◌else◌,
}
use mini_async_log_c.Wrapper.Throwing.{Thrown, returned, exception}

-- The smart pointers of `is_valid_smartptr`, by what they point to. Of a weak pointer the first says whether
-- there is an owner left that `lock` can join.
pub data SmartPtr (A : Type 0) : Type 0 where
  shared_ptr unique_ptr : Option A → SmartPtr A
  weak_ptr : Bool → Option A → SmartPtr A

-- `dereference_smarptr::run`
unfoldable pub dereference_smarptr : {A : Type 0} → SmartPtr A → Option A
dereference_smarptr (shared_ptr p) = p
dereference_smarptr (unique_ptr p) = p
dereference_smarptr (weak_ptr owned p) = if owned then p else none

-- What is logged with `ostr`: a value with what its output operator does, or a smart pointer, which can be
-- to a smart pointer again.
pub data Ostreamable : Type 0 where
  value : Thrown (List ℕ) → Ostreamable
  null_ptr : Ostreamable
  pointer : Ostreamable → Ostreamable

-- `ostreamable_printer::run`: the stream afterwards, and whether there was a value.
unfoldable pub ostreamable_printer : Ostreamable → List ℕ → Thrown (List ℕ × Bool)
ostreamable_printer (value exception) o = exception
ostreamable_printer (value (returned t)) o = returned (o ++ t, true)
ostreamable_printer null_ptr o = returned (o, false)
ostreamable_printer (pointer x) o = ostreamable_printer x o

-- The value at the end of the pointers, if none of them is null.
abbrev pub pointee : Ostreamable → Option (Thrown (List ℕ))
pointee (value t) = some t
pointee null_ptr = none
pointee (pointer x) = pointee x

abbrev pub shown : Option (Thrown (List ℕ)) → Thrown (List ℕ × Bool)
shown none = returned ([], false)
shown (some exception) = exception
shown (some (returned t)) = returned (t, true)

-- Into an empty stream the printer writes the value behind the pointers, or nothing when one of them is null,
-- which it reports; what the output operator throws is thrown.
pub ostreamable_printer-shown : (x : Ostreamable) → ostreamable_printer x [] ≡ shown (pointee x)
unfolding ostreamable_printer
ostreamable_printer-shown (value exception) = refl
ostreamable_printer-shown (value (returned t)) = refl
ostreamable_printer-shown null_ptr = refl
ostreamable_printer-shown (pointer x) = ostreamable_printer-shown x

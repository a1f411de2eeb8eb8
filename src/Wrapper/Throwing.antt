-- ===== src/Wrapper/Throwing.antt =====
-- `throwing_wrapper`, `dst_access` and `dst_access_throw` of include/malcpp/impl/malc_base.hpp, with
-- `dst_access_untyped` of src/malcpp/destinations.cpp: errors as exceptions; and
-- `destination_adapter` of include/malcpp/destinations.hpp: exceptions as errors.
pub mod Tasks
use mini_async_log_c.Common.{
  ℕ, ◌-◌, ◌^◌, ◌≡◌, ◌≢◌, refl, sym, ap, ◌∙◌, Bool, true, false, ◌||◌, inl, inr, ◌⊎◌, Bool-cases,
  Option, none, some, List, [], if◌then◌else◌, ◌==◌, Result, ok, err, BlErr, error, invalid,
  nothing_to_do, preconditions,
}

-- What a call does that can throw.
pub data Thrown (A : Type 0) : Type 0 where
  returned : A → Thrown A
  exception : Thrown A

unfoldable pub throw_if_error : {A : Type 0} → Result A → Thrown A
throw_if_error (ok a) = returned a
throw_if_error (err e) = exception

-- `throwing_wrapper::run_consume_task`, from the result of `malc_run_consume_task`.
unfoldable pub throwing_run_consume_task : Result (Unit {0}) → Thrown Bool
throwing_run_consume_task (ok u) = returned true
throwing_run_consume_task (err nothing_to_do) = returned true
throwing_run_consume_task (err preconditions) = returned false
throwing_run_consume_task (err e) = exception

-- `dst_access_untyped`: the logger that has the destination, if the object is valid.
pub record DstAccess : Type 0 where
  pub owner : Option ℕ
  pub id : ℕ

abbrev pub no_access : DstAccess
no_access = record { owner = none; id = 2 ^ 64 - 1 }

abbrev pub is_valid : DstAccess → Bool
is_valid x = elim x.owner [ none ↦ false | some a ↦ true ]

-- `get_cfg`, `set_cfg` and `untyped_try_get`, from what the function of malc does with the logger and
-- the identifier.
unfoldable pub access : {A : Type 0} → (ℕ → ℕ → Result A) → DstAccess → Result A
access call x = elim x.owner [ none ↦ err invalid | some a ↦ call a x.id ]

-- `dst_access::try_get`, whose error is a null pointer.
unfoldable pub try_get : (ℕ → ℕ → Result ℕ) → DstAccess → Option ℕ
unfolding access
try_get get_instance x = elim (access get_instance x) [ ok p ↦ some p | err e ↦ none ]

-- `dst_access_throw::get`
unfoldable pub get : (ℕ → ℕ → Result ℕ) → DstAccess → Thrown ℕ
unfolding access throw_if_error
get get_instance x = if is_valid x then throw_if_error (access get_instance x) else exception

-- `wrapper::add_destination`, from the wrapper's handle and the result of `malc_add_destination`, and
-- that of `throwing_wrapper`.
unfoldable pub add_destination : ℕ → Result ℕ → DstAccess
add_destination handle (ok id) = record { owner = some handle; id = id }
add_destination handle (err e) = no_access

unfoldable pub throwing_add_destination : ℕ → Result ℕ → Thrown DstAccess
unfolding add_destination
throwing_add_destination handle r =
    let tmp = add_destination handle r in if is_valid tmp then returned tmp else exception

-- `try_catch_wrap` of `destination_adapter`, on what the function that it runs does.
unfoldable pub try_catch_wrap : Thrown (Result (Unit {0})) → Result (Unit {0})
try_catch_wrap (returned r) = r
try_catch_wrap exception = err error

-- `fwd_init` and `fwd_terminate`, from the constructor or the destructor of a destination; then
-- `fwd_flush`, `fwd_idle_task` and `fwd_write`, from its method.
unfoldable pub fwd_init : Thrown (Unit {0}) → Result (Unit {0})
unfolding try_catch_wrap
fwd_init (returned u) = try_catch_wrap (returned (ok tt))
fwd_init exception = try_catch_wrap exception

unfoldable pub fwd_method : Thrown Bool → Result (Unit {0})
unfolding try_catch_wrap
fwd_method (returned b) = try_catch_wrap (returned (if b then ok tt else err error))
fwd_method exception = try_catch_wrap exception

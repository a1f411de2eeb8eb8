-- ===== src/Wrapper/Throwing/Tasks.antt =====
-- `throwing_wrapper::run_consume_task` of include/malcpp/impl/malc_base.hpp over
-- `malc_run_consume_task` of src/malc/malc.c.
use mini_async_log_c.Common.{
  ℕ, ◌≡◌, refl, sym, ap, ◌∙◌, Bool, true, false, ◌||◌, inl, inr, Bool-cases, Option, none, some,
  List, ◌==◌, Result,
}
use mini_async_log_c.Common.BaseLibrary.{IntegerMath, Ringb}
use mini_async_log_c.Serial.Values.{Build}
use mini_async_log_c.Memory.Bounded.{Mpmc}
use mini_async_log_c.Destinations.Types.{PastEntry}
use mini_async_log_c.EntryParser.Types.{Printing}
use mini_async_log_c.EntryParser.Objects.{ObjTables}
use mini_async_log_c.Logger.Consumer.{
  Outside, Malc, Polled, Effect, consume_loop, can_consume, task_result, run_consume_task,
}
use mini_async_log_c.Wrapper.Throwing.{Thrown, returned, exception, throwing_run_consume_task}

module _ (b : Build) (im : IntegerMath) (q : Mpmc) (ringb : Ringb PastEntry) (out : Printing)
    (tables : ObjTables) (sys : Outside) where
  abbrev pub Outcome : Type 0
  Outcome = Malc b im q ringb out tables sys × (List Effect × Result (Unit {0}))

  task_result-returns :
      (count : ℕ)
      → throwing_run_consume_task (task_result b im q ringb out tables sys count) ≡ returned true
  unfolding throwing_run_consume_task
  task_result-returns count = elim (Bool-cases (count == 0)) [
    | inl e ↦ rw (e) refl
    | inr e ↦ rw (e) refl
  ]

  abbrev thrown : Option Outcome → Thrown Bool
  thrown none = exception
  thrown (some r) = throwing_run_consume_task r.1.1

  -- When neither the clock nor the mutex fails, a task of the wrapper that comes back throws
  -- nothing: it tells whether the logger runs or terminates, or the mutex took all of its time.
  pub run_consume_task-returns :
      (late : Bool) (fuel : ℕ) (polls : List (Polled × Bool)) (l : Malc b im q ringb out tables sys)
      (r : Outcome)
      → run_consume_task b im q ringb out tables sys none none late fuel polls l ≡ some r
      → throwing_run_consume_task r.1.1
        ≡ returned (late || can_consume b im q ringb out tables sys l.state)
  unfolding run_consume_task throwing_run_consume_task
  run_consume_task-returns true fuel polls l r e = sym (ap thrown e)
  run_consume_task-returns false fuel polls l r e =
      at (can_consume b im q ringb out tables sys l.state) refl
        (consume_loop b im q ringb out tables sys fuel polls l) refl
    where
      at :
          (can : Bool)
          → can_consume b im q ringb out tables sys l.state ≡ can
          → (o : Option (Malc b im q ringb out tables sys × (List Effect × ℕ)))
          → consume_loop b im q ringb out tables sys fuel polls l ≡ o
          → throwing_run_consume_task r.1.1
            ≡ returned (can_consume b im q ringb out tables sys l.state)
      at false c o d = rw (c) (sym (ap thrown (rw (c) at e)))
      at true c none d = absurd (cc (rw (run_consume_task, c, d) at e))
      at true c (some x) d =
          rw (c) (sym (ap thrown (rw (run_consume_task, c, d) at e)) ∙ task_result-returns x.1.1)

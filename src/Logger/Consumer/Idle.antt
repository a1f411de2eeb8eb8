-- ===== src/Logger/Consumer/Idle.antt =====
-- The deadline of the idle task, `malc_try_run_idle_task` of src/malc/malc.c.
use mini_async_log_c.Common.{ℕ, zero, suc, ◌+◌, ◌%◌, ◌^◌, ◌<◌, ◌≡◌, refl, true, none, arith}
use mini_async_log_c.Common.BaseLibrary.{IntegerMath, Ringb}
use mini_async_log_c.Serial.Values.{Build}
use mini_async_log_c.Memory.Bounded.{Mpmc}
use mini_async_log_c.Destinations.Types.{PastEntry}
use mini_async_log_c.EntryParser.Types.{Printing}
use mini_async_log_c.EntryParser.Objects.{ObjTables}
use mini_async_log_c.Logger.Consumer.{Outside, Malc, next_deadline, try_run_idle_task}

module _ (b : Build) (im : IntegerMath) (q : Mpmc) (ringb : Ringb PastEntry) (out : Printing)
    (tables : ObjTables) (sys : Outside) where
  next_deadline_stuck :
      (fuel period deadline now : ℕ)
      → sys.usec period ≡ 0
      → deadline < 2 ^ 64
      → sys.expired deadline now ≡ true
      → next_deadline b im q ringb out tables sys fuel period deadline now ≡ none
  unfolding next_deadline
  next_deadline_stuck zero period deadline now z small e = refl
  next_deadline_stuck (suc fuel) period deadline now z small e =
      rw (z, unmoved, e) (next_deadline_stuck fuel period deadline now z small e)
    where
      unmoved : (deadline + 0) % 2 ^ 64 ≡ deadline
      unmoved = omega arith

  -- With a period that is no time the idle task does not end once its deadline, below 2^64, has
  -- expired, on any fuel: the deadline does not move.
  pub try_run_idle_task-hangs :
      (fuel now : ℕ) (l : Malc b im q ringb out tables sys)
      → sys.usec l.idle_task_period_us ≡ 0
      → l.idle_deadline < 2 ^ 64
      → sys.expired l.idle_deadline now ≡ true
      → try_run_idle_task b im q ringb out tables sys fuel now l ≡ none
  unfolding try_run_idle_task
  try_run_idle_task-hangs fuel now l z small e =
      rw
        (
          try_run_idle_task,
          e,
          next_deadline_stuck fuel l.idle_task_period_us l.idle_deadline now z small e,
        )
        refl

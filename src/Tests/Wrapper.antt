-- ===== src/Tests/Wrapper.antt =====
-- Objects of the C++ interface: programs and calls on which the theorems about them are run.
use mini_async_log_c.Common.{
  ◌+◌, ◌%◌, ◌≤◌, ◌<◌, ◌≡◌, refl, true, false, none, some, [], ◌∷◌, err, nothing_to_do, arith,
}
use mini_async_log_c.Destinations.Types.{PastEntry}
use mini_async_log_c.Logger.Consumer.{is_empty, run_consume_task}
use mini_async_log_c.Wrapper.{Program, base_constructor, construct_impl, move_assign}
use mini_async_log_c.Wrapper.Owners.{held, times, IsOwned}
use mini_async_log_c.Wrapper.Owners.Reachable.{
  make_object, construct, assign, no_objects, Reach, start, later, Reach-IsOwned, move_assign-leaks,
}
use mini_async_log_c.Wrapper.Footer.{
  get_aligned_footer_data, construct_size, get_aligned_footer_data-inside,
}
use mini_async_log_c.Tests.Library.{integer_math, mpmc, ringb}
use mini_async_log_c.Tests.Logger.{build}
use mini_async_log_c.Tests.EntryParser.{plain_out, no_tables}
use mini_async_log_c.Tests.Consumer.{outside, logger}

-- Two objects, each with a logger.
abbrev two_loggers : Program
two_loggers =
    (construct_impl 1 (some 8192) none
      (construct_impl 0 (some 4096) none (base_constructor (base_constructor no_objects))).0).0

two_loggers-Reach : Reach two_loggers
unfolding base_constructor construct_impl
two_loggers-Reach =
    later
      (later (later (later start make_object) make_object)
        (construct 0 (some 4096) none (omega arith) refl))
      (construct 1 (some 8192) none (omega arith) refl)

Reach-IsOwned_example : IsOwned (move_assign 0 1 two_loggers)
unfolding base_constructor construct_impl
Reach-IsOwned_example =
    Reach-IsOwned (later two_loggers-Reach (assign 0 1 (omega arith) (omega arith)))

move_assign-leaks_example :
    (held 4096 (move_assign 0 1 two_loggers).objects ≡ 0)
    × (times 4096 (move_assign 0 1 two_loggers).live ≡ 1)
unfolding base_constructor construct_impl
move_assign-leaks_example =
    move_assign-leaks 0 1 4096 two_loggers-Reach (omega arith) (omega arith) (λ e. omega arith) refl

get_aligned_footer_data-inside_example :
    (4096 + 1001 < get_aligned_footer_data 8 4096 1001)
    × (get_aligned_footer_data 8 4096 1001 + 40 ≤ 4096 + construct_size 8 1001 40)
    × (get_aligned_footer_data 8 4096 1001 % 8 ≡ 0)
unfolding construct_size
get_aligned_footer_data-inside_example =
    get_aligned_footer_data-inside 8 4096 1001 40 (omega arith) (omega arith)

-- A task that finds the queue empty.
empty_task :
    run_consume_task build integer_math mpmc
      (ringb PastEntry)
      plain_out
      no_tables
      outside
      none
      none
      false
      1
      ((is_empty true 0, true) ∷ [])
      logger
    ≡ some (logger, ([], err nothing_to_do))
unfolding run_consume_task
empty_task = refl

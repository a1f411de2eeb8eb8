-- ===== src/Tests/Consumer.antt =====
-- Runs of the logger's consumer and of its life: src/malc/malc.c.
use mini_async_log_c.Common.{
  ℕ, ◌≡◌, refl, Bool, true, false, none, some, List, [], ◌∷◌, ◌++◌, map, leb, error, arith, ok,
}
use mini_async_log_c.Memory.Sources.{heap}
use mini_async_log_c.Destinations.Types.{PastEntry, Call, Destination, default_cfg}
use mini_async_log_c.Memory.TssList.{tls_register, fill_null}
use mini_async_log_c.Destinations.Flushed.{FlushesEach}
use mini_async_log_c.Destinations.State.{Destinations}
use mini_async_log_c.Logger.{
  running, stopped, QueueCommand, cmd_flush, cmd_tls_register, cmd_terminate,
}
use mini_async_log_c.Logger.Consumer.{
  Node, call, signal_flush, dealloc_node, got, is_empty, Outside, Malc, consume, consume_loop,
  try_run_idle_task,
}
use mini_async_log_c.Logger.Consumer.Order.{rounds, consume_all, counting, consume_loop-order}
use mini_async_log_c.Logger.Consumer.Flush.{consume_all-flush}
use mini_async_log_c.Logger.Consumer.Idle.{try_run_idle_task-hangs}
use mini_async_log_c.Logger.Consumer.Life.{Leaves, life_state, consume-Leaves}
use mini_async_log_c.Logger.Lifecycle.{
  Life, init_call, commit_call, terminate_call, run_call, Reach, created, called, malc_create,
  malc_init, malc_log_entry_commit, malc_destroy, destroyed, late, takes,
}
use mini_async_log_c.Logger.Lifecycle.Create.{IsClean, made, malc_create-IsClean}
use mini_async_log_c.Logger.Lifecycle.Reachable.{IsSound, Reach-IsSound, malc_destroy-stops}
use mini_async_log_c.Tests.Library.{integer_math, mpmc, ringb}
use mini_async_log_c.Tests.Logger.{build, memory}
use mini_async_log_c.Tests.EntryParser.{plain_out, no_tables, parser, entries}

abbrev pub outside : Outside
outside = record {
  env = record { static = entries; now = 0; to_nsec = λ t. t; has_room = λ n. true };
  format_address = λ e. e;
  expired = λ deadline now. leb deadline now;
  reached = λ a b. leb b a;
  update = λ i c. c;
  usec = λ us. us;
  list_room = λ l. true;
}

abbrev Logger : Type 0
Logger = Malc build integer_math mpmc (ringb PastEntry) plain_out no_tables outside

abbrev pub no_destinations : Destinations (ringb PastEntry)
no_destinations = record {
  nodes = [];
  min_severity = 54;
  count = 0;
  filter_max_time = 0;
  filter_watch_count = 0;
  filter_min_severity = 53;
  pe = record { items = []; room = 4 };
}

abbrev pub logger : Logger
logger = record {
  state = running;
  idle_task_period_us = 0;
  idle_deadline = 10;
  mem = memory;
  tls = [];
  ds = record {
    args = [];
    refs = [];
    refdtor = record { func = 0; context = 0 };
    entry = 0;
    t = 0;
  };
  ep = parser;
  dst = no_destinations;
}

abbrev node_of : QueueCommand → ℕ → Node
node_of c a = record {
  address = a;
  node = record { has_timestamp = true; cmd = c; tag = heap; slots = 0 };
  bytes = [];
  tls_mem = 900;
}

consume_loop-order_example :
    consume_loop build integer_math mpmc
      (ringb PastEntry)
      plain_out
      no_tables
      outside
      1
      (rounds
        (got (node_of cmd_flush 300) ∷ is_empty false 0 ∷ got (node_of cmd_tls_register 400) ∷ []))
      logger
    ≡ counting build integer_math mpmc (ringb PastEntry) plain_out no_tables outside 2 (
        consume_all build integer_math mpmc
          (ringb PastEntry)
          plain_out
          no_tables
          outside
          (node_of cmd_flush 300 ∷ node_of cmd_tls_register 400 ∷ [])
          logger)
consume_loop-order_example =
    consume_loop-order build integer_math mpmc (ringb PastEntry) plain_out no_tables outside 1
      (got (node_of cmd_flush 300)) (is_empty false 0 ∷ got (node_of cmd_tls_register 400) ∷ [])
      logger (λ e. cc e) (refl, ((λ e. cc e), tt))

-- A destination that can be flushed behind one that can not.
abbrev destination : Bool → Destination
destination can = record {
  dst = record {
    size_of = 8;
    init = none;
    has_terminate = false;
    has_flush = can;
    has_idle_task = false;
    has_write = true;
  };
  cfg = default_cfg;
}

abbrev flushing : Logger
flushing = record logger {
  dst = record no_destinations { nodes = destination false ∷ destination true ∷ []; count = 2 };
}

abbrev registered : Logger
registered = record flushing { tls = 900 ∷ [] }

is_registered :
    consume_all build integer_math mpmc
      (ringb PastEntry)
      plain_out
      no_tables
      outside
      (node_of cmd_tls_register 400 ∷ [])
      flushing
    ≡ some (registered, dealloc_node 400 ∷ [])
unfolding consume tls_register fill_null
is_registered = refl

consume_all-flush_example :
    (calls : List Call) × FlushesEach registered.dst.nodes calls
    × (consume_all build integer_math mpmc
          (ringb PastEntry)
          plain_out
          no_tables
          outside
          ((node_of cmd_tls_register 400 ∷ []) ++ (node_of cmd_flush 300 ∷ []))
          flushing
        ≡ some (registered, (dealloc_node 400 ∷ []) ++ (map call calls ++ (signal_flush 300 ∷ []))))
consume_all-flush_example =
    consume_all-flush build integer_math mpmc (ringb PastEntry) plain_out no_tables outside
      (node_of cmd_tls_register 400 ∷ []) (node_of cmd_flush 300) flushing
      (registered, dealloc_node 400 ∷ []) is_registered refl

try_run_idle_task-hangs_example :
    try_run_idle_task build integer_math mpmc
      (ringb PastEntry)
      plain_out
      no_tables
      outside
      50
      20
      logger
    ≡ none
try_run_idle_task-hangs_example =
    try_run_idle_task-hangs build integer_math mpmc (ringb PastEntry) plain_out no_tables outside 50
      20 logger refl (omega arith) refl

consume-Leaves_example :
    Leaves build integer_math mpmc
      (ringb PastEntry)
      plain_out
      no_tables
      outside
      (life_state build integer_math mpmc
        (ringb PastEntry)
        plain_out
        no_tables
        outside
        running
        cmd_terminate)
      (consume build integer_math mpmc
        (ringb PastEntry)
        plain_out
        no_tables
        outside
        (node_of cmd_terminate 300)
        logger)
consume-Leaves_example =
    consume-Leaves build integer_math mpmc (ringb PastEntry) plain_out no_tables outside
      (node_of cmd_terminate 300) logger refl

-- A logger that is started and logs an entry, and one that is terminated behind it.
abbrev busy : Life
busy =
    run_call commit_call
      (run_call (init_call 2000 none none none none) (record { state = stopped; queue = [] }))

busy-Reach : Reach busy
busy-Reach = called _ _ (called _ _ created)

Reach-IsSound_example : IsSound (run_call (terminate_call true none false) busy)
Reach-IsSound_example =
    Reach-IsSound (run_call (terminate_call true none false) busy)
      (called busy (terminate_call true none false) busy-Reach)

malc_destroy-stops_example :
    (s' : Life) × (malc_destroy true none true (late ∷ takes 2 ∷ takes 1 ∷ takes 0 ∷ []) busy
      ≡ some (s', (ok tt, destroyed)))
    × (s'.state ≡ stopped)
unfolding run_call malc_init malc_log_entry_commit
malc_destroy-stops_example =
    malc_destroy-stops busy true (late ∷ takes 2 ∷ takes 1 ∷ []) 0 busy-Reach refl
      (tt, (tt, (tt, tt))) (omega arith)

malc_create-IsClean_example :
    ¬ IsClean (made (some error) none none) (malc_create true none none (some error) none none).1
unfolding malc_create
malc_create-IsClean_example = malc_create-IsClean (some error) none none (λ e. cc e)

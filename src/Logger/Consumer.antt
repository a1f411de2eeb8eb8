-- ===== src/Logger/Consumer.antt =====
-- src/malc/malc.c: the consumer of the queue, `malc_run_consume_task` and `malc_try_run_idle_task`.
pub mod Order
pub mod Idle
pub mod Flush
pub mod Life
pub mod Released
use mini_async_log_c.Common.{
  ℕ, zero, suc, ◌+◌, ◌%◌, ◌^◌, ◌||◌, Bool, true, false, Option, none, some, List, [], ◌∷◌, ◌++◌,
  map, if◌then◌else◌, Result, ok, err, BlErr, preconditions, nothing_to_do, ◌==◌,
}
use mini_async_log_c.Common.BaseLibrary.{IntegerMath, Ringb}
use mini_async_log_c.Serial.Values.{Build}
use mini_async_log_c.Serial.Deserialize.{Deserializer, Env, reset, get_log_entry, execute}
use mini_async_log_c.Memory.Bounded.{Mpmc}
use mini_async_log_c.Memory.Sources.{Allocation, Memory, memory_dealloc}
use mini_async_log_c.Memory.TssList.{tls_register, tls_destroy, tls_destroy_all}
use mini_async_log_c.Destinations.Types.{DstCfg, PastEntry, LogStrings, Call}
use mini_async_log_c.Destinations.State.{Destinations, write, flush, terminate, idle_task}
use mini_async_log_c.EntryParser.Types.{EntryParser, Printing}
use mini_async_log_c.EntryParser.Objects.{ObjTables}
use mini_async_log_c.EntryParser.Entry.{Freed, Parsed, get_log_strings}
use mini_async_log_c.Logger.{
  State, stopped, initializing, running, terminating, destructing, QNode, cmd_entry,
  cmd_tls_register, cmd_tls_dealloc_deregister, cmd_flush, cmd_terminate,
}

-- A node that the queue gives: its address, the bytes behind it up to the end of its slots, and the
-- buffer that a `qnode_tls_alloc` points to.
pub record Node : Type 0 where
  pub address : ℕ
  pub node : QNode
  pub bytes : List ℕ
  pub tls_mem : ℕ

-- What the consumer does outside of its own state, in the order that it does it.
pub data Effect : Type 0 where
  call : Call → Effect
  free_entry : Freed → Effect
  dealloc_node dealloc_message dealloc_buffer signal_flush : ℕ → Effect

-- What one call of `bl_mpsc_i_consume` that is not busy comes to, with the times that go with it: when
-- the queue is empty, whether the next sleep is beyond the boundary of the idle task.
pub data Polled : Type 0 where
  got : Node → Polled
  is_empty : Bool → ℕ → Polled
  failed : BlErr → Polled

-- What the logger calls of the clock and of the rest of the system.
pub record Outside : Type 0 where
  pub env : Env
  -- The address of the format string of an entry.
  pub format_address : ℕ → ℕ
  -- `bl_fast_timept_deadline_expired_explicit`, and the same on nanoseconds for the destinations.
  pub expired : ℕ → ℕ → Bool
  pub reached : ℕ → ℕ → Bool
  -- The change of a destination's settings by its severity file.
  pub update : ℕ → DstCfg → DstCfg
  -- `bl_usec_to_fast_timept`
  pub usec : ℕ → ℕ
  -- Whether the array of thread buffers can grow.
  pub list_room : List ℕ → Bool

module _ (b : Build) (im : IntegerMath) (q : Mpmc) (ringb : Ringb PastEntry) (out : Printing)
    (tables : ObjTables) (sys : Outside) where
  -- `struct malc`, what the consumer uses of it.
  pub record Malc : Type 0 where
    pub state : State
    pub idle_task_period_us : ℕ
    pub idle_deadline : ℕ
    pub mem : Memory q
    pub tls : List ℕ
    pub ds : Deserializer
    pub ep : EntryParser
    pub dst : Destinations ringb

  -- The logger after a command, the effects, and whether the task ends (`goto unlock`).
  pub record Handled : Type 0 where
    pub logger : Malc
    pub effects : List Effect
    pub stops : Bool

  abbrev pub no_strings : LogStrings
  no_strings = record { timestamp = []; sev = []; text = [] }

  -- The texts of an entry go to the destinations, unless there was an error.
  unfoldable pub write_parsed : Malc → Parsed out tables → Malc × List Effect
  unfolding write
  write_parsed l p =
      let l' = record l { ep = p.parser } in
      elim p.result [
        | err e ↦ (l', map free_entry p.freed)
        | ok u ↦
            let (dst, calls) =
              write ringb sys.reached (sys.format_address l.ds.entry) l.ds.t
                (sys.env.static.const_entry l.ds.entry).severity p.strings l.dst in
            (record l' { dst = dst }, map free_entry p.freed ++ map call calls)
      ]

  unfoldable pub parse_entry : Malc → Option (Malc × List Effect)
  unfolding get_log_strings write_parsed
  parse_entry l =
      elim (get_log_strings out tables sys.env.static (get_log_entry l.ds) no_strings l.ep) [
        | none ↦ none
        | some p ↦ some (write_parsed l p)
      ]

  -- The slots of a node.
  abbrev pub allocation : Node → Allocation
  allocation n = record { mem = n.address; tag = n.node.tag; slots = n.node.slots + 1 }

  abbrev pub message : Option ℕ → List Effect
  message none = []
  message (some a) = dealloc_message a ∷ []

  unfoldable pub release : Node → Malc × List Effect → Handled
  unfolding memory_dealloc
  release n (l, effects) =
      let (m, freed) = memory_dealloc im q l.mem (allocation n) in
      record { logger = record l { mem = m }; effects = effects ++ message freed; stops = false }

  -- The command `q_cmd_entry`. What a failed deserialization leaves is not read: it is reset before the
  -- next entry.
  unfoldable pub consume_entry : Node → Malc → Option Handled
  unfolding parse_entry release
  consume_entry n l =
      let l' = record l { ds = reset l.ds } in
      elim (execute b im sys.env n.bytes n.node.has_timestamp l'.ds) [
        | err e ↦ some (release n (l', []))
        | ok ds ↦ elim (parse_entry (record l' { ds = ds })) [
          | none ↦ none
          | some r ↦ some (release n r)
        ]
      ]

  -- The command `q_cmd_terminate`.
  unfoldable pub consume_terminate : Node → Malc → Handled
  unfolding terminate tls_destroy_all
  consume_terminate n l =
      let (dst, calls) = terminate ringb l.dst in
      let (tls, freed) = tls_destroy_all l.tls in
      record {
        logger = record l { dst = dst; tls = tls; state = stopped };
        effects = dealloc_node n.address ∷ (map call calls ++ map dealloc_buffer freed);
        stops = true;
      }

  -- The `switch` on the command.
  unfoldable pub consume : Node → Malc → Option Handled
  unfolding consume_entry consume_terminate tls_register tls_destroy flush
  consume n l = elim n.node.cmd [
    | cmd_entry ↦ consume_entry n l
    | cmd_tls_register ↦
        let (tls, r) = tls_register (sys.list_room l.tls) n.tls_mem l.tls in
        some (record {
          logger = record l { tls = tls };
          effects = dealloc_node n.address ∷ [];
          stops = false;
        })
    | cmd_tls_dealloc_deregister ↦
        let (tls, found) = tls_destroy n.address l.tls in
        some (record {
          logger = record l { tls = tls };
          effects = if found then dealloc_buffer n.address ∷ [] else [];
          stops = false;
        })
    | cmd_flush ↦ some (record {
      logger = l;
      effects = map call (flush ringb l.dst) ++ (signal_flush n.address ∷ []);
      stops = false;
    })
    | cmd_terminate ↦ some (consume_terminate n l)
  ]

  -- The loop of `malc_try_run_idle_task` that moves the deadline, on fuel.
  unfoldable pub next_deadline : ℕ → ℕ → ℕ → ℕ → Option ℕ
  next_deadline zero period deadline now = none
  next_deadline (suc fuel) period deadline now =
      let moved = (deadline + sys.usec period) % 2 ^ 64 in
      let rest = next_deadline fuel period moved now in
      if sys.expired moved now then rest else some moved

  -- `malc_try_run_idle_task`, at a time that the destinations get in nanoseconds.
  unfoldable pub try_run_idle_task : ℕ → ℕ → Malc → Option (Malc × List Effect)
  unfolding next_deadline idle_task
  try_run_idle_task fuel now l =
      if sys.expired l.idle_deadline now
      then (let (dst, calls) = idle_task ringb sys.reached sys.update (sys.env.to_nsec now) l.dst in
          elim (next_deadline fuel l.idle_task_period_us l.idle_deadline now) [
            | none ↦ none
            | some d ↦ some (record l { dst = dst; idle_deadline = d }, map call calls)
          ])
      else some (l, [])

  -- A round of the loop, and what it adds to `count`.
  unfoldable pub poll : ℕ → Polled → Malc → Option Handled
  unfolding consume try_run_idle_task
  poll fuel (got n) l = consume n l
  poll fuel (is_empty false now) l = some (record { logger = l; effects = []; stops = false })
  poll fuel (is_empty true now) l = elim (try_run_idle_task fuel now l) [
    | none ↦ none
    | some r ↦ some (record { logger = r.0; effects = r.1; stops = false })
  ]
  poll fuel (failed e) l = some (record { logger = l; effects = []; stops = true })

  abbrev pub counted : Polled → ℕ
  counted (got n) = 1
  counted (is_empty beyond now) = 0
  counted (failed e) = 0

  -- The loop's results: the logger, the effects and `count`.
  abbrev pub Run : Type 0
  Run = Option (Malc × (List Effect × ℕ))

  abbrev pub behind : List Effect → ℕ → Run → Run
  behind effects n none = none
  behind effects n (some r) = some (r.0, (effects ++ r.1.0, n + r.1.1))

  -- The `do` loop over what its rounds poll, each with whether the deadline has expired at its end.
  -- It has not ended where these are used up.
  unfoldable pub consume_loop : ℕ → List (Polled × Bool) → Malc → Run
  unfolding poll
  consume_loop fuel [] l = none
  consume_loop fuel ((p, over) ∷ polls) l = elim (poll fuel p l) [
    | none ↦ none
    | some h ↦ elim (h.stops || over) [
      | true ↦ some (h.logger, (h.effects, counted p))
      | false ↦ behind h.effects (counted p) (consume_loop fuel polls h.logger)
    ]
  ]

  abbrev pub can_consume : State → Bool
  can_consume stopped = false
  can_consume initializing = false
  can_consume running = true
  can_consume terminating = true
  can_consume destructing = false

  abbrev pub task_result : ℕ → Result (Unit {0})
  task_result count = if count == 0 then err nothing_to_do else ok tt

  -- `malc_run_consume_task`, from what its first calls return: the deadline's and the mutex's errors,
  -- and whether the mutex took all of the time.
  unfoldable pub run_consume_task :
      Option BlErr
      → Option BlErr
      → Bool
      → ℕ
      → List (Polled × Bool)
      → Malc
      → Option (Malc × (List Effect × Result (Unit {0})))
  unfolding consume_loop
  run_consume_task (some e) lock late fuel polls l = some (l, ([], err e))
  run_consume_task none (some e) late fuel polls l = some (l, ([], err e))
  run_consume_task none none true fuel polls l = some (l, ([], ok tt))
  run_consume_task none none false fuel polls l =
      if can_consume l.state
      then (elim (consume_loop fuel polls l) [
        | none ↦ none
        | some r ↦ some (r.0, (r.1.0, task_result r.1.1))
      ])
      else some (l, ([], err preconditions))

-- ===== src/Logger/Lifecycle.antt =====
-- src/malc/malc.c: the logger's life, with its state and the commands on its queue.
pub mod Reachable
pub mod Create
use mini_async_log_c.Common.{
  ℕ, zero, suc, ◌+◌, Bool, true, false, Option, none, some, List, [], ◌∷◌, ◌++◌, if◌then◌else◌,
  ◌==◌, ◌||◌, length, Result, ok, err, BlErr, alloc, invalid, preconditions, nothing_to_do,
}
use mini_async_log_c.Common.BaseLibrary.{Ringb}
use mini_async_log_c.Destinations.Types.{Dst, PastEntry}
use mini_async_log_c.Destinations.State.{Destinations, add}
use mini_async_log_c.Logger.{
  State, stopped, initializing, running, terminating, destructing, is_running, QueueCommand,
  cmd_entry, cmd_tls_register, cmd_tls_dealloc_deregister, cmd_flush, cmd_terminate,
}

-- The parts that `malc_create` makes and `malc_destroy` destroys.
pub data Part : Type 0 where
  time_extras produce_mutex memory deserializer parser destinations : Part

-- The labels at its end: each goes on to those behind it.
abbrev pub memory_destroy_label : List Part
memory_destroy_label = memory ∷ []

abbrev pub deserializer_destroy_label : List Part
deserializer_destroy_label = deserializer ∷ memory_destroy_label

abbrev pub mutex_destroy_label : List Part
mutex_destroy_label = produce_mutex ∷ deserializer_destroy_label

-- `malc_create`, from whether there is an allocator and the errors of its calls: the result and the
-- parts that it destroys.
unfoldable pub malc_create :
    Bool
    → Option BlErr
    → Option BlErr
    → Option BlErr
    → Option BlErr
    → Option BlErr
    → Result (Unit {0}) × List Part
malc_create false t mutex mem ds ep = (err invalid, [])
malc_create true (some e) mutex mem ds ep = (err e, [])
malc_create true none (some e) mem ds ep = (err e, [])
malc_create true none none (some e) ds ep = (err e, mutex_destroy_label)
malc_create true none none none (some e) ep = (err e, memory_destroy_label)
malc_create true none none none none (some e) = (err e, deserializer_destroy_label)
malc_create true none none none none none = (ok tt, [])

-- What the threads share: the state and the queue, whose order is that of the calls that produce.
pub record Life : Type 0 where
  pub state : State
  pub queue : List QueueCommand

abbrev pub produce : QueueCommand → Life → Life
produce c s = record s { queue = s.queue ++ (c ∷ []) }

-- The rest of `malc_init` once the state is `st_initializing`, from the errors of its calls: the storing
-- of the settings, the bounded buffer, and the consumer's thread if it has one. It is one step here.
unfoldable pub init_stopped :
    Option BlErr → Option BlErr → Option BlErr → Life → Life × Result (Unit {0})
init_stopped (some e) buffer thread s = (record s { state = stopped }, err e)
init_stopped none (some e) thread s = (record s { state = stopped }, err e)
init_stopped none none (some e) s = (record s { state = stopped }, err e)
init_stopped none none none s = (record s { state = running }, ok tt)

-- `malc_init`, from the period of the backoff and the error of the settings' validation.
unfoldable pub malc_init :
    ℕ → Option BlErr → Option BlErr → Option BlErr → Option BlErr → Life → Life × Result (Unit {0})
unfolding init_stopped
malc_init backoff_max_us validate set_limits buffer thread s =
    if backoff_max_us == 0 then (s, err invalid) else (elim validate [
      | some e ↦ (s, err e)
      | none ↦ elim s.state [
        | stopped ↦ init_stopped set_limits buffer thread s
        | _ ↦ (s, err preconditions)
      ]
    ])

-- `malc_flush` up to the wait for its node.
unfoldable pub malc_flush : Life → Life × Result (Unit {0})
malc_flush s = if is_running s.state then (produce cmd_flush s, ok tt) else (s, err preconditions)

-- `malc_tls_destructor`, when the calling thread has a buffer.
unfoldable pub tls_destructor : Bool → Life → Life
tls_destructor has_buffer s = if has_buffer then produce cmd_tls_dealloc_deregister s else s

-- `malc_terminate` up to its consuming, from whether there is memory for the node, the error of
-- `memory_tls_try_run_destructor`, and whether the thread has a buffer.
unfoldable pub malc_terminate : Bool → Option BlErr → Bool → Life → Life × Result (Unit {0})
unfolding tls_destructor
malc_terminate false tls has_buffer s = (s, err alloc)
malc_terminate true (some e) has_buffer s = (s, err e)
malc_terminate true none has_buffer s =
    let s' = tls_destructor has_buffer s in
    if is_running s'.state
    then (produce cmd_terminate (record s' { state = terminating }), ok tt)
    else (s', err preconditions)

-- `malc_producer_thread_local_init`
unfoldable pub malc_producer_thread_local_init :
    Bool → Option BlErr → Life → Life × Result (Unit {0})
malc_producer_thread_local_init false tls s = (s, err alloc)
malc_producer_thread_local_init true (some e) s = (s, err e)
malc_producer_thread_local_init true none s = (produce cmd_tls_register s, ok tt)

-- `malc_log_entry_commit`
unfoldable pub malc_log_entry_commit : Life → Life
malc_log_entry_commit s = produce cmd_entry s

-- What `malc_run_consume_task` does to the state and the queue at a command.
unfoldable pub consume_command : Life → Life
consume_command s =
    let next : Life = elim s.queue [
      | [] ↦ s
      | c ∷ cs ↦ elim c [
        | cmd_terminate ↦ record { state = stopped; queue = cs }
        | _ ↦ record s { queue = cs }
      ]
    ] in
    elim s.state [ running ↦ next | terminating ↦ next | _ ↦ s ]

-- The check of `malc_add_destination`.
unfoldable pub add_destination_allowed : State → Result (Unit {0})
add_destination_allowed stopped = ok tt
add_destination_allowed initializing = ok tt
add_destination_allowed running = err preconditions
add_destination_allowed terminating = err preconditions
add_destination_allowed destructing = err preconditions

-- So many commands are taken.
unfoldable pub consumed : ℕ → Life → Life
unfolding consume_command
consumed zero s = s
consumed (suc n) s = consumed n (consume_command s)

-- The states in which `malc_run_consume_task` takes commands.
abbrev pub takes_commands : State → Bool
takes_commands stopped = false
takes_commands initializing = false
takes_commands running = true
takes_commands terminating = true
takes_commands destructing = false

-- What comes of a `malc_run_consume_task` of the loop in `malc_terminate`: an error of the deadline or of
-- the mutex; the mutex takes all of the time; up to so many commands are taken; or it takes them and
-- then does not return, as at an entry on which the parser hangs.
pub data TaskRound : Type 0 where
  failed : BlErr → TaskRound
  late : TaskRound
  takes hangs : ℕ → TaskRound

-- The state and the queue after `malc_run_consume_task`; `none` where it does not return.
unfoldable pub run_task : TaskRound → Life → Option (Life × Result (Unit {0}))
unfolding consumed
run_task (failed e) s = some (s, err e)
run_task late s = some (s, ok tt)
run_task (takes n) s =
    if takes_commands s.state
    then some (consumed n s, if n == 0 || (length s.queue == 0) then err nothing_to_do else ok tt)
    else some (s, err preconditions)
run_task (hangs n) s = if takes_commands s.state then none else some (s, err preconditions)

-- The loop in `malc_terminate`, which goes on while the task returns success or that there is nothing
-- to do. `none` where it has not ended with these rounds.
unfoldable pub wait_stopped : List TaskRound → Life → Option (Life × Result (Unit {0}))
unfolding run_task
wait_stopped [] s = none
wait_stopped (r ∷ rounds) s = elim (run_task r s) [
  | none ↦ none
  | some (s', res) ↦
      let rest = wait_stopped rounds s' in
      elim res [
        | ok u ↦ rest
        | err e ↦ elim e [
          | nothing_to_do ↦ rest
          | preconditions ↦ some (s', ok tt)
          | x ↦ some (s', err x)
        ]
      ]
]

-- `malc_destroy` behind its call of `malc_terminate`: the parts that it destroys.
abbrev pub destroyed : List Part
destroyed = produce_mutex ∷ time_extras ∷ memory ∷ deserializer ∷ parser ∷ destinations ∷ []

unfoldable pub destroy_terminated :
    Life × Result (Unit {0}) → Life × (Result (Unit {0}) × List Part)
destroy_terminated (s, ok u) = (s, (ok tt, destroyed))
destroy_terminated (s, err e) = elim e [
  | preconditions ↦ (s, (ok tt, destroyed))
  | x ↦ (s, (err x, []))
]

-- `malc_terminate` that waits, from the rounds of its loop.
unfoldable pub terminate_waiting :
    List TaskRound → Life × Result (Unit {0}) → Option (Life × Result (Unit {0}))
unfolding wait_stopped
terminate_waiting rounds (s, ok u) = wait_stopped rounds s
terminate_waiting rounds (s, err e) = some (s, err e)

unfoldable pub malc_destroy :
    Bool
    → Option BlErr
    → Bool
    → List TaskRound
    → Life
    → Option (Life × (Result (Unit {0}) × List Part))
unfolding malc_terminate destroy_terminated terminate_waiting
malc_destroy room tls has_buffer rounds s =
    elim (terminate_waiting rounds (malc_terminate room tls has_buffer s)) [
      | none ↦ none
      | some r ↦ some (destroy_terminated r)
    ]

-- `malc_add_destination`
unfoldable pub malc_add_destination :
    (ringb : Ringb PastEntry)
    → State
    → Bool
    → Dst
    → Destinations ringb
    → Destinations ringb × Result ℕ
unfolding add_destination_allowed
malc_add_destination ringb state realloc dst d = elim (add_destination_allowed state) [
  | ok u ↦ add ringb realloc dst d
  | err e ↦ (d, err e)
]

-- A call of any thread, with whatever comes of what it calls.
pub data ApiCall : Type 0 where
  init_call : ℕ → Option BlErr → Option BlErr → Option BlErr → Option BlErr → ApiCall
  flush_call commit_call consume_call : ApiCall
  exit_call : Bool → ApiCall
  terminate_call : Bool → Option BlErr → Bool → ApiCall
  local_init_call : Bool → Option BlErr → ApiCall

unfoldable pub run_call : ApiCall → Life → Life
unfolding malc_init malc_flush tls_destructor malc_terminate malc_producer_thread_local_init
    malc_log_entry_commit consume_command
run_call (init_call backoff v l b t) s = (malc_init backoff v l b t s).0
run_call flush_call s = (malc_flush s).0
run_call commit_call s = malc_log_entry_commit s
run_call consume_call s = consume_command s
run_call (exit_call has_buffer) s = tls_destructor has_buffer s
run_call (terminate_call room tls has_buffer) s = (malc_terminate room tls has_buffer s).0
run_call (local_init_call room tls) s = (malc_producer_thread_local_init room tls s).0

-- The states that a logger comes to from its creation, by calls in any order.
pub data Reach : Life → Type 0 where
  created : Reach (record { state = stopped; queue = [] })
  called : (s : Life) (c : ApiCall) → Reach s → Reach (run_call c s)

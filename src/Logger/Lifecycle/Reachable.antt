-- ===== src/Logger/Lifecycle/Reachable.antt =====
-- The termination of the logger in src/malc/malc.c, over the states that calls in any order lead to.
use mathlib.Core.Path.{subst}
use mini_async_log_c.Common.{
  ℕ, zero, suc, ◌+◌, ◌≡◌, refl, sym, ap, ◌∙◌, Bool, true, false, Option, none, some, List, [], ◌∷◌,
  ◌++◌, length, length-append, ◌||◌, if◌then◌else◌, ◌==◌, Result, ok, err, BlErr, invalid,
  preconditions, arith, All, inl, inr, ◌⊎◌, ◌≤◌, nothing_to_do,
}
use mini_async_log_c.Logger.{
  State, stopped, initializing, running, terminating, destructing, is_running, QueueCommand,
  cmd_entry, cmd_tls_register, cmd_tls_dealloc_deregister, cmd_flush, cmd_terminate,
}
use mini_async_log_c.Logger.Lifecycle.{
  Life, produce, init_stopped, malc_init, malc_flush, tls_destructor, malc_terminate,
  malc_producer_thread_local_init, consume_command, ApiCall, init_call, flush_call, commit_call,
  consume_call, exit_call, terminate_call, local_init_call, run_call, consumed, destroy_terminated,
  destroyed, TaskRound, failed, late, takes, hangs, run_task, wait_stopped, terminate_waiting,
  takes_commands, Part, malc_destroy, Reach, created, called,
}

abbrev pub is_terminate : QueueCommand → ℕ
is_terminate cmd_terminate = 1
is_terminate cmd_entry = 0
is_terminate cmd_tls_register = 0
is_terminate cmd_tls_dealloc_deregister = 0
is_terminate cmd_flush = 0

-- The terminate commands of a queue, and how many there have to be.
abbrev pub terminates : List QueueCommand → ℕ
terminates [] = 0
terminates (c ∷ cs) = is_terminate c + terminates cs

abbrev pub due : State → ℕ
due terminating = 1
due stopped = 0
due initializing = 0
due running = 0
due destructing = 0

-- The queue has one terminate command while the logger is terminating, and none otherwise.
abbrev pub IsSound : Life → Type 0
IsSound s = terminates s.queue ≡ due s.state

terminates-append :
    (q : List QueueCommand) (c : QueueCommand)
    → terminates (q ++ (c ∷ [])) ≡ terminates q + is_terminate c
terminates-append [] c = omega arith
terminates-append (x ∷ q) c = omega (arith, terminates-append q c)

produce-IsSound :
    (c : QueueCommand) (s : Life) → is_terminate c ≡ 0 → IsSound s → IsSound (produce c s)
produce-IsSound c s z h = omega (arith, terminates-append s.queue c)

init_stopped-IsSound :
    (l b t : Option BlErr) (s : Life) → terminates s.queue ≡ 0 → IsSound (init_stopped l b t s).0
unfolding init_stopped
init_stopped-IsSound (some e) b t s h = h
init_stopped-IsSound none (some e) t s h = h
init_stopped-IsSound none none (some e) s h = h
init_stopped-IsSound none none none s h = h

malc_init-IsSound :
    (backoff : ℕ) (v l b t : Option BlErr) (s : Life)
    → IsSound s
    → IsSound (malc_init backoff v l b t s).0
unfolding malc_init
malc_init-IsSound backoff v l b t s h = at (backoff == 0) v s.state s.queue h
  where
    Step : Bool → Option BlErr → Life → Life
    Step zero_backoff v s =
        (if zero_backoff then (s, err invalid) else (elim v [
          | some e ↦ (s, err e)
          | none ↦ elim s.state [ stopped ↦ init_stopped l b t s | _ ↦ (s, err preconditions) ]
        ])).0

    at :
        (z : Bool) (v : Option BlErr) (st : State) (q : List QueueCommand)
        → terminates q ≡ due st
        → IsSound (Step z v (record { state = st; queue = q }))
    at true v st q h = h
    at false (some e) st q h = h
    at false none stopped q h = init_stopped-IsSound l b t (record { state = stopped; queue = q }) h
    at false none initializing q h = h
    at false none running q h = h
    at false none terminating q h = h
    at false none destructing q h = h

malc_flush-IsSound : (s : Life) → IsSound s → IsSound (malc_flush s).0
unfolding malc_flush
malc_flush-IsSound s h = at (is_running s.state)
  where
    Flushed : Bool → Life × Result (Unit {0})
    Flushed r = if r then (produce cmd_flush s, ok tt) else (s, err preconditions)

    at : (r : Bool) → IsSound (Flushed r).0
    at true = produce-IsSound cmd_flush s refl h
    at false = h

tls_destructor-IsSound :
    (has_buffer : Bool) (s : Life) → IsSound s → IsSound (tls_destructor has_buffer s)
unfolding tls_destructor
tls_destructor-IsSound true s h = produce-IsSound cmd_tls_dealloc_deregister s refl h
tls_destructor-IsSound false s h = h

-- The state after the thread's buffer is sent is the one before.
malc_terminate-IsSound :
    (room : Bool) (tls : Option BlErr) (has_buffer : Bool) (s : Life)
    → IsSound s
    → IsSound (malc_terminate room tls has_buffer s).0
unfolding malc_terminate is_running
malc_terminate-IsSound false tls has_buffer s h = h
malc_terminate-IsSound true (some e) has_buffer s h = h
malc_terminate-IsSound true none has_buffer s h =
    at (tls_destructor has_buffer s).state (tls_destructor has_buffer s).queue
      (tls_destructor-IsSound has_buffer s h)
  where
    Terminated : Life → Life × Result (Unit {0})
    Terminated s =
        if is_running s.state
        then (produce cmd_terminate (record s { state = terminating }), ok tt)
        else (s, err preconditions)

    at :
        (st : State) (q : List QueueCommand)
        → terminates q ≡ due st
        → IsSound (Terminated (record { state = st; queue = q })).0
    at running q h = omega (arith, terminates-append q cmd_terminate)
    at stopped q h = h
    at initializing q h = h
    at terminating q h = h
    at destructing q h = h

malc_producer_thread_local_init-IsSound :
    (room : Bool) (tls : Option BlErr) (s : Life)
    → IsSound s
    → IsSound (malc_producer_thread_local_init room tls s).0
unfolding malc_producer_thread_local_init
malc_producer_thread_local_init-IsSound false tls s h = h
malc_producer_thread_local_init-IsSound true (some e) s h = h
malc_producer_thread_local_init-IsSound true none s h = produce-IsSound cmd_tls_register s refl h

consume_command-IsSound : (s : Life) → IsSound s → IsSound (consume_command s)
unfolding consume_command
consume_command-IsSound s h = at s.state s.queue h
  where
    at :
        (st : State) (q : List QueueCommand)
        → terminates q ≡ due st
        → IsSound (consume_command (record { state = st; queue = q }))
    at stopped q h = h
    at initializing q h = h
    at destructing q h = h
    at running [] h = h
    at terminating [] h = h
    at running (cmd_terminate ∷ q) h = omega arith
    at terminating (cmd_terminate ∷ q) h = omega arith
    at running (cmd_entry ∷ q) h = omega arith
    at terminating (cmd_entry ∷ q) h = omega arith
    at running (cmd_flush ∷ q) h = omega arith
    at terminating (cmd_flush ∷ q) h = omega arith
    at running (cmd_tls_register ∷ q) h = omega arith
    at terminating (cmd_tls_register ∷ q) h = omega arith
    at running (cmd_tls_dealloc_deregister ∷ q) h = omega arith
    at terminating (cmd_tls_dealloc_deregister ∷ q) h = omega arith

run_call-IsSound : (c : ApiCall) (s : Life) → IsSound s → IsSound (run_call c s)
unfolding run_call
run_call-IsSound (init_call backoff v l b t) s h = malc_init-IsSound backoff v l b t s h
run_call-IsSound flush_call s h = malc_flush-IsSound s h
run_call-IsSound commit_call s h = produce-IsSound cmd_entry s refl h
run_call-IsSound consume_call s h = consume_command-IsSound s h
run_call-IsSound (exit_call has_buffer) s h = tls_destructor-IsSound has_buffer s h
run_call-IsSound (terminate_call room tls has_buffer) s h =
    malc_terminate-IsSound room tls has_buffer s h
run_call-IsSound (local_init_call room tls) s h =
    malc_producer_thread_local_init-IsSound room tls s h

-- Whatever the threads call in whatever order, the queue has one terminate command while the logger
-- is terminating, and none otherwise.
pub Reach-IsSound : (s : Life) → Reach s → IsSound s
Reach-IsSound _ created = refl
Reach-IsSound _ (called s c r) = run_call-IsSound c s (Reach-IsSound s r)

-- While it waits the logger is stopped, or it terminates with one terminate command on a queue that is no
-- longer than the commands that are still taken.
abbrev Waits : ℕ → Life → Type 0
Waits left s =
    (s.state ≡ stopped)
    ⊎ ((s.state ≡ terminating) × (terminates s.queue ≡ 1) × (length s.queue ≤ left))

consumed-stopped :
    (n : ℕ) (q : List QueueCommand)
    → consumed n (record { state = stopped; queue = q }) ≡ record { state = stopped; queue = q }
unfolding consumed
consumed-stopped zero q = refl
consumed-stopped (suc n) q = consumed-stopped n q

consumed-Waits :
    (n left : ℕ) (q : List QueueCommand)
    → terminates q ≡ 1
    → length q ≤ n + left
    → Waits left (consumed n (record { state = terminating; queue = q }))
unfolding consumed
consumed-Waits zero left q one few = inr (refl, one, omega (arith, few))
consumed-Waits (suc n) left [] one few = absurd (omega (arith, one))
consumed-Waits (suc n) left (cmd_terminate ∷ q) one few =
    inl (ap (λ s. s.state) (consumed-stopped n q))
consumed-Waits (suc n) left (cmd_entry ∷ q) one few =
    consumed-Waits n left q (omega (arith, one)) (omega (arith, few))
consumed-Waits (suc n) left (cmd_flush ∷ q) one few =
    consumed-Waits n left q (omega (arith, one)) (omega (arith, few))
consumed-Waits (suc n) left (cmd_tls_register ∷ q) one few =
    consumed-Waits n left q (omega (arith, one)) (omega (arith, few))
consumed-Waits (suc n) left (cmd_tls_dealloc_deregister ∷ q) one few =
    consumed-Waits n left q (omega (arith, one)) (omega (arith, few))

-- The rounds return without an error of the deadline or the mutex.
abbrev pub IsWorking : TaskRound → Type 0
IsWorking (failed e) = ⊥
IsWorking late = Unit
IsWorking (takes n) = Unit
IsWorking (hangs n) = ⊥

-- How many commands they can take.
abbrev pub room_for : List TaskRound → ℕ
room_for [] = 0
room_for (takes n ∷ rounds) = n + room_for rounds
room_for (_ ∷ rounds) = room_for rounds

-- The loop ends with the logger stopped.
abbrev pub Stops : Option (Life × Result (Unit {0})) → Type 0
Stops r = (s : Life) × (r ≡ some (s, ok tt)) × (s.state ≡ stopped)

some_left : (q : List QueueCommand) → terminates q ≡ 1 → length q ≤ 0 → ⊥
some_left [] one few = absurd (omega (arith, one))
some_left (c ∷ q) one few = absurd (omega (arith, few))

takes-Waits :
    (n left : ℕ) (s : Life)
    → s.state ≡ terminating
    → terminates s.queue ≡ 1
    → length s.queue ≤ n + left
    → Waits left (consumed n s)
takes-Waits n left s e one few =
    subst (λ st. Waits left (consumed n (record { state = st; queue = s.queue }))) (sym e)
      (consumed-Waits n left s.queue one few)

abbrev done_by : Bool → Result (Unit {0})
done_by idle = if idle then err nothing_to_do else ok tt

abbrev did : ℕ → Life → Result (Unit {0})
did n s = done_by (n == 0 || (length s.queue == 0))

run_task-taking :
    (n : ℕ) (s : Life) (can : Bool)
    → takes_commands s.state ≡ can
    → run_task (takes n) s
      ≡ (if can then some (consumed n s, did n s) else some (s, err preconditions))
unfolding run_task
run_task-taking n s can e =
    ap (λ c. if c then some (consumed n s, did n s) else some (s, err preconditions)) e

wait_stopped-Stops :
    (rounds : List TaskRound) (n : ℕ) (s : Life)
    → All IsWorking rounds
    → Waits (room_for rounds) s
    → Stops (wait_stopped (rounds ++ (takes n ∷ [])) s)
unfolding wait_stopped run_task
wait_stopped-Stops [] n s working (inl e) =
    rw (wait_stopped, run_task-taking n s false (ap takes_commands e)) (s, refl, e)
wait_stopped-Stops [] n s working (inr (e, one, few)) = absurd (some_left s.queue one few)
wait_stopped-Stops (failed x ∷ rounds) n s working w = absurd (working.0)
wait_stopped-Stops (hangs m ∷ rounds) n s working w = absurd (working.0)
wait_stopped-Stops (late ∷ rounds) n s working w = wait_stopped-Stops rounds n s working.1 w
wait_stopped-Stops (takes m ∷ rounds) n s working (inl e) =
    rw (wait_stopped, run_task-taking m s false (ap takes_commands e)) (s, refl, e)
wait_stopped-Stops (takes m ∷ rounds) n s working (inr (e, one, few)) =
    rw (wait_stopped, run_task-taking m s true (ap takes_commands e))
      (goes_on (m == 0 || (length s.queue == 0)) (
        wait_stopped-Stops rounds n (consumed m s) working.1
          (takes-Waits m (room_for rounds) s e one few)))
  where
    rest : Option (Life × Result (Unit {0}))
    rest = wait_stopped (rounds ++ (takes n ∷ [])) (consumed m s)

    goes_on :
        (b : Bool)
        → Stops rest
        → Stops (elim (done_by b) [
          | ok u ↦ rest
          | err x ↦ elim x [
            | nothing_to_do ↦ rest
            | preconditions ↦ some (consumed m s, ok tt)
            | y ↦ some (consumed m s, err y)
          ]
        ])
    goes_on true h = h
    goes_on false h = h

terminated : Bool → Life → Life
terminated has_buffer s =
    produce cmd_terminate (record (tls_destructor has_buffer s) { state = terminating })

malc_terminate-running :
    (has_buffer : Bool) (s : Life)
    → s.state ≡ running
    → malc_terminate true none has_buffer s ≡ (terminated has_buffer s, ok tt)
unfolding malc_terminate tls_destructor is_running terminated
malc_terminate-running true s e = rw (malc_terminate, tls_destructor, terminated, e) refl
malc_terminate-running false s e = rw (malc_terminate, tls_destructor, terminated, e) refl

length-terminated :
    (has_buffer : Bool) (s : Life) → length (terminated has_buffer s).queue ≤ length s.queue + 2
unfolding terminated tls_destructor
length-terminated true s = omega (
  arith,
  length-append (s.queue ++ (cmd_tls_dealloc_deregister ∷ [])) (cmd_terminate ∷ []),
  length-append s.queue (cmd_tls_dealloc_deregister ∷ []),
)
length-terminated false s = omega (arith, length-append s.queue (cmd_terminate ∷ []))

-- Whatever the threads have called before, `malc_destroy` of a running logger succeeds, leaves the
-- logger stopped and destroys all of its parts, when there is memory for its node, the thread's buffer is
-- released, and the consumer works: each `malc_run_consume_task` of the loop in `malc_terminate` returns
-- and has no error of its own, together they take the commands on the queue with the two that
-- `malc_terminate` can add, and one more finds that the logger is stopped. No other thread calls then.
pub malc_destroy-stops :
    (s : Life) (has_buffer : Bool) (rounds : List TaskRound) (n : ℕ)
    → Reach s
    → s.state ≡ running
    → All IsWorking rounds
    → length s.queue + 2 ≤ room_for rounds
    → (s' : Life) × (malc_destroy true none has_buffer (rounds ++ (takes n ∷ [])) s
        ≡ some (s', (ok tt, destroyed)))
      × (s'.state ≡ stopped)
unfolding malc_destroy destroy_terminated terminated run_call terminate_waiting
malc_destroy-stops s has_buffer rounds n r e working room =
    let t : malc_terminate true none has_buffer s ≡ (terminated has_buffer s, ok tt) =
      malc_terminate-running has_buffer s e in
    let (s', w, stops) = wait_stopped-Stops rounds n (terminated has_buffer s) working (
      inr (
        refl,
        Reach-IsSound (terminated has_buffer s)
            (subst Reach (ap (λ x. x.0) t) (called s (terminate_call true none has_buffer) r)),
        omega (arith, room, length-terminated has_buffer s),
      )) in
    (s', ap completed (ap (terminate_waiting (rounds ++ (takes n ∷ []))) t ∙ w), stops)
  where
    completed : Option (Life × Result (Unit {0})) → Option (Life × (Result (Unit {0}) × List Part))
    completed o = elim o [ none ↦ none | some r ↦ some (destroy_terminated r) ]

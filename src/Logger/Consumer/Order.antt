-- ===== src/Logger/Consumer/Order.antt =====
-- The order in which `malc_run_consume_task` of src/malc/malc.c takes the commands of the queue.
use mini_async_log_c.Common.{
  ℕ, suc, ◌≡◌, ◌≢◌, refl, ap, ◌∙◌, Bool, true, false, Option, none, some, List, [], ◌∷◌, ◌++◌,
  append-nil, Result, ok, err, length, All, arith,
}
use mini_async_log_c.Common.BaseLibrary.{IntegerMath, Ringb}
use mini_async_log_c.Serial.Values.{Build}
use mini_async_log_c.Serial.Deserialize.{Deserializer, reset, get_log_entry, execute}
use mini_async_log_c.EntryParser.Entry.{Parsed, get_log_strings}
use mini_async_log_c.Memory.Bounded.{Mpmc}
use mini_async_log_c.Memory.Sources.{memory_dealloc}
use mini_async_log_c.Destinations.Types.{PastEntry}
use mini_async_log_c.EntryParser.Types.{Printing}
use mini_async_log_c.EntryParser.Objects.{ObjTables}
use mini_async_log_c.Logger.{
  QueueCommand, cmd_entry, cmd_tls_register, cmd_tls_dealloc_deregister, cmd_flush, cmd_terminate,
}
use mini_async_log_c.Logger.Consumer.{
  Node, Effect, Polled, got, is_empty, failed, Outside, Malc, Handled, no_strings, write_parsed,
  allocation, release, parse_entry, consume_entry, consume, poll, behind, consume_loop,
}

-- The nodes that the rounds have got.
abbrev pub nodes_of : List Polled → List Node
nodes_of [] = []
nodes_of (got n ∷ ps) = n ∷ nodes_of ps
nodes_of (is_empty beyond now ∷ ps) = nodes_of ps
nodes_of (failed e ∷ ps) = nodes_of ps

-- Another command than the one that ends the logger, or nothing before it is time for the idle task.
abbrev pub IsQuiet : Polled → Type 0
IsQuiet (got n) = n.node.cmd ≢ cmd_terminate
IsQuiet (is_empty beyond now) = beyond ≡ false
IsQuiet (failed e) = ⊥

abbrev pub rounds : List Polled → List (Polled × Bool)
rounds [] = []
rounds (p ∷ []) = (p, true) ∷ []
rounds (p ∷ ps) = (p, false) ∷ rounds ps

module _ (b : Build) (im : IntegerMath) (q : Mpmc) (ringb : Ringb PastEntry) (out : Printing)
    (tables : ObjTables) (sys : Outside) where
  abbrev pub prefixed :
      List Effect
      → Option (Malc b im q ringb out tables sys × List Effect)
      → Option (Malc b im q ringb out tables sys × List Effect)
  prefixed es none = none
  prefixed es (some r) = some (r.0, es ++ r.1)

  -- The commands one after the other, with nothing in between.
  abbrev pub consume_all :
      List Node
      → Malc b im q ringb out tables sys
      → Option (Malc b im q ringb out tables sys × List Effect)
  consume_all [] l = some (l, [])
  consume_all (n ∷ ns) l = elim (consume b im q ringb out tables sys n l) [
    | none ↦ none
    | some h ↦ prefixed h.effects (consume_all ns h.logger)
  ]

  abbrev pub counting :
      ℕ
      → Option (Malc b im q ringb out tables sys × List Effect)
      → Option (Malc b im q ringb out tables sys × (List Effect × ℕ))
  counting n none = none
  counting n (some r) = some (r.0, (r.1, n))

  abbrev Goes : Option (Handled b im q ringb out tables sys) → Type 0
  Goes none = Unit
  Goes (some h) = h.stops ≡ false

  abbrev Keeps :
      Malc b im q ringb out tables sys
      → Option (Malc b im q ringb out tables sys × List Effect)
      → Type 0
  Keeps l none = Unit
  Keeps l (some r) = (r.0.mem ≡ l.mem) × (r.0.state ≡ l.state)

  parse_entry-Keeps :
      (l : Malc b im q ringb out tables sys) → Keeps l (parse_entry b im q ringb out tables sys l)
  unfolding parse_entry write_parsed
  parse_entry-Keeps l = at (
      get_log_strings out tables sys.env.static (get_log_entry l.ds)
        (no_strings b im q ringb out tables sys) l.ep)
    where
      written :
          (p : Parsed out tables) (r : Result (Unit {0}))
          → Keeps l (some (write_parsed b im q ringb out tables sys l (record p { result = r })))
      written p (ok u) = (refl, refl)
      written p (err e) = (refl, refl)

      at :
          (m : Option (Parsed out tables))
          → Keeps l (elim m [
            | none ↦ none
            | some p ↦ some (write_parsed b im q ringb out tables sys l p)
          ])
      at none = tt
      at (some p) = written p p.result

  -- The memory of an entry is given back, and the task goes on.
  abbrev pub Releases :
      Node
      → Malc b im q ringb out tables sys
      → Option (Handled b im q ringb out tables sys)
      → Type 0
  Releases n l none = Unit
  Releases n l (some h) =
      (h.logger.mem ≡ (memory_dealloc im q l.mem (allocation b im q ringb out tables sys n)).0)
      × ((h.logger.state ≡ l.state) × (h.stops ≡ false))

  -- Whatever comes of the deserialization and of the parsing of an entry, the command returns its memory
  -- to where it is from, when it returns.
  pub consume_entry-Releases :
      (n : Node) (l : Malc b im q ringb out tables sys)
      → Releases n l (consume_entry b im q ringb out tables sys n l)
  unfolding consume_entry release
  consume_entry-Releases n l = at (execute b im sys.env n.bytes n.node.has_timestamp (reset l.ds))
    where
      parsed :
          (r : Option (Malc b im q ringb out tables sys × List Effect))
          → Keeps l r
          → Releases n l
              (elim r [ none ↦ none | some r ↦ some (release b im q ringb out tables sys n r) ])
      parsed none k = tt
      parsed (some r) k = (
        ap (λ m. (memory_dealloc im q m (allocation b im q ringb out tables sys n)).0) k.0,
        (k.1, refl),
      )

      at :
          (r : Result Deserializer)
          → Releases n l (elim r [
            | err e ↦
                some (release b im q ringb out tables sys n (record l { ds = reset l.ds }, []))
            | ok ds ↦ elim (parse_entry b im q ringb out tables sys (record l { ds = ds })) [
              | none ↦ none
              | some r ↦ some (release b im q ringb out tables sys n r)
            ]
          ])
      at (err e) = (refl, (refl, refl))
      at (ok ds) =
          parsed (parse_entry b im q ringb out tables sys (record l { ds = ds }))
            (parse_entry-Keeps (record l { ds = ds }))

  consume_entry-Goes :
      (n : Node) (l : Malc b im q ringb out tables sys)
      → Goes (consume_entry b im q ringb out tables sys n l)
  consume_entry-Goes n l =
      at (consume_entry b im q ringb out tables sys n l) (consume_entry-Releases n l)
    where
      at : (m : Option (Handled b im q ringb out tables sys)) → Releases n l m → Goes m
      at none r = tt
      at (some h) r = r.1.1

  consume-Goes :
      (n : Node) (l : Malc b im q ringb out tables sys)
      → n.node.cmd ≢ cmd_terminate
      → Goes (consume b im q ringb out tables sys n l)
  unfolding consume
  consume-Goes n l h = at n.node.cmd refl
    where
      at : (c : QueueCommand) → n.node.cmd ≡ c → Goes (consume b im q ringb out tables sys n l)
      at cmd_entry e = rw (consume, e) (consume_entry-Goes n l)
      at cmd_tls_register e = rw (consume, e) refl
      at cmd_tls_dealloc_deregister e = rw (consume, e) refl
      at cmd_flush e = rw (consume, e) refl
      at cmd_terminate e = absurd (h e)

  behind-counting :
      (es : List Effect) (k : ℕ) (m : Option (Malc b im q ringb out tables sys × List Effect))
      → behind b im q ringb out tables sys es 1 (counting k m) ≡ counting (suc k) (prefixed es m)
  behind-counting es k none = refl
  behind-counting es k (some r) = ap (λ n. some (r.0, (es ++ r.1, n))) (omega arith)

  behind-nothing :
      (k : ℕ) (m : Option (Malc b im q ringb out tables sys × List Effect))
      → behind b im q ringb out tables sys [] 0 (counting k m) ≡ counting k m
  behind-nothing k none = refl
  behind-nothing k (some r) = ap (λ n. some (r.0, (r.1, n))) (omega arith)

  -- A run of the loop over rounds that do not end it, of which the last has the deadline expired:
  -- with commands other than the last one of a logger, and an empty queue only before it is time
  -- for the idle task, the commands are carried out in the order of the queue, each once and each
  -- to its end before the next, and `count` is how many they were.
  pub consume_loop-order :
      (fuel : ℕ) (p : Polled) (ps : List Polled) (l : Malc b im q ringb out tables sys)
      → IsQuiet p
      → All IsQuiet ps
      → consume_loop b im q ringb out tables sys fuel (rounds (p ∷ ps)) l
        ≡ counting (length (nodes_of (p ∷ ps))) (consume_all (nodes_of (p ∷ ps)) l)
  unfolding consume_loop poll
  consume_loop-order fuel (failed e) ps l h hs = absurd h
  consume_loop-order fuel (is_empty beyond now) [] l h hs = rw (h) refl
  consume_loop-order fuel (is_empty beyond now) (p ∷ ps) l h hs = rw (h) (
      ap (behind b im q ringb out tables sys [] 0) (consume_loop-order fuel p ps l hs.0 hs.1)
      ∙ behind-nothing _ _)
  consume_loop-order fuel (got n) [] l h hs =
      at (consume b im q ringb out tables sys n l) refl (consume-Goes n l h)
    where
      at :
          (m : Option (Handled b im q ringb out tables sys))
          → consume b im q ringb out tables sys n l ≡ m
          → Goes m
          → consume_loop b im q ringb out tables sys fuel ((got n, true) ∷ []) l
            ≡ counting 1 (consume_all (n ∷ []) l)
      at none e g = rw (consume_loop, poll, consume_all, e) refl
      at (some x) e g = rw (consume_loop, poll, consume_all, e, g, append-nil x.effects) refl
  consume_loop-order fuel (got n) (p ∷ ps) l h hs =
      at (consume b im q ringb out tables sys n l) refl (consume-Goes n l h)
        (λ l. consume_loop-order fuel p ps l hs.0 hs.1)
    where
      at :
          (m : Option (Handled b im q ringb out tables sys))
          → consume b im q ringb out tables sys n l ≡ m
          → Goes m
          → ((l : Malc b im q ringb out tables sys)
              → consume_loop b im q ringb out tables sys fuel (rounds (p ∷ ps)) l
                ≡ counting (length (nodes_of (p ∷ ps))) (consume_all (nodes_of (p ∷ ps)) l))
          → consume_loop b im q ringb out tables sys fuel ((got n, false) ∷ rounds (p ∷ ps)) l
            ≡ counting (suc (length (nodes_of (p ∷ ps)))) (consume_all (n ∷ nodes_of (p ∷ ps)) l)
      at none e g ih = rw (consume_loop, poll, consume_all, e) refl
      at (some x) e g ih =
          rw (consume_loop, poll, consume_all, e, g)
            (ap (behind b im q ringb out tables sys x.effects 1) (ih x.logger)
              ∙ behind-counting x.effects _ _)

-- ===== src/Logger/Consumer/Life.antt =====
-- The consumer of src/malc/malc.c against the life of the logger.
use mini_async_log_c.Common.{◌≡◌, ◌≢◌, refl, true, Option, none, some, [], ◌∷◌}
use mini_async_log_c.Common.BaseLibrary.{IntegerMath, Ringb}
use mini_async_log_c.Serial.Values.{Build}
use mini_async_log_c.Memory.Bounded.{Mpmc}
use mini_async_log_c.Destinations.Types.{PastEntry}
use mini_async_log_c.EntryParser.Types.{Printing}
use mini_async_log_c.EntryParser.Objects.{ObjTables}
use mini_async_log_c.Logger.{
  State, stopped, initializing, running, terminating, destructing, QueueCommand, cmd_entry,
  cmd_tls_register, cmd_tls_dealloc_deregister, cmd_flush, cmd_terminate,
}
use mini_async_log_c.Logger.Lifecycle.{consume_command}
use mini_async_log_c.Logger.Consumer.{
  Node, Outside, Malc, Handled, can_consume, consume, consume_entry, consume_terminate,
}
use mini_async_log_c.Logger.Consumer.Order.{Releases, consume_entry-Releases}

module _ (b : Build) (im : IntegerMath) (q : Mpmc) (ringb : Ringb PastEntry) (out : Printing)
    (tables : ObjTables) (sys : Outside) where
  -- The state of a command's outcome.
  abbrev pub Leaves : State → Option (Handled b im q ringb out tables sys) → Type 0
  Leaves st none = Unit
  Leaves st (some h) = h.logger.state ≡ st

  -- The state of the life after a command at the head of the queue.
  abbrev pub life_state : State → QueueCommand → State
  life_state st c = (consume_command (record { state = st; queue = c ∷ [] })).state

  entry-Leaves :
      (n : Node) (l : Malc b im q ringb out tables sys)
      → Leaves l.state (consume_entry b im q ringb out tables sys n l)
  entry-Leaves n l =
      at (consume_entry b im q ringb out tables sys n l)
        (consume_entry-Releases b im q ringb out tables sys n l)
    where
      at :
          (m : Option (Handled b im q ringb out tables sys))
          → Releases b im q ringb out tables sys n l m
          → Leaves l.state m
      at none r = tt
      at (some h) r = r.1.0

  same_state :
      (st : State) (c : QueueCommand)
      → can_consume b im q ringb out tables sys st ≡ true
      → c ≢ cmd_terminate
      → life_state st c ≡ st
  unfolding consume_command
  same_state stopped c e h = absurd (cc e)
  same_state initializing c e h = absurd (cc e)
  same_state destructing c e h = absurd (cc e)
  same_state running cmd_entry e h = refl
  same_state running cmd_flush e h = refl
  same_state running cmd_tls_register e h = refl
  same_state running cmd_tls_dealloc_deregister e h = refl
  same_state running cmd_terminate e h = absurd (h refl)
  same_state terminating cmd_entry e h = refl
  same_state terminating cmd_flush e h = refl
  same_state terminating cmd_tls_register e h = refl
  same_state terminating cmd_tls_dealloc_deregister e h = refl
  same_state terminating cmd_terminate e h = absurd (h refl)

  last_state :
      (st : State)
      → can_consume b im q ringb out tables sys st ≡ true
      → life_state st cmd_terminate ≡ stopped
  unfolding consume_command
  last_state stopped e = refl
  last_state initializing e = absurd (cc e)
  last_state destructing e = absurd (cc e)
  last_state running e = refl
  last_state terminating e = refl

  -- In the states in which the consumer takes commands, what it does at one, with all that it calls, leaves
  -- the logger in the state that the logger's life says.
  pub consume-Leaves :
      (n : Node) (l : Malc b im q ringb out tables sys)
      → can_consume b im q ringb out tables sys l.state ≡ true
      → Leaves (life_state l.state n.node.cmd) (consume b im q ringb out tables sys n l)
  unfolding consume consume_terminate
  consume-Leaves n l e = at n.node.cmd refl
    where
      at :
          (c : QueueCommand)
          → n.node.cmd ≡ c
          → Leaves (life_state l.state c) (consume b im q ringb out tables sys n l)
      at cmd_entry h =
          rw (consume, h, same_state l.state cmd_entry e (λ c. cc c)) (entry-Leaves n l)
      at cmd_flush h = rw (consume, h, same_state l.state cmd_flush e (λ c. cc c)) refl
      at cmd_tls_register h =
          rw (consume, h, same_state l.state cmd_tls_register e (λ c. cc c)) refl
      at cmd_tls_dealloc_deregister h =
          rw (consume, h, same_state l.state cmd_tls_dealloc_deregister e (λ c. cc c)) refl
      at cmd_terminate h = rw (consume, h, last_state l.state e) refl

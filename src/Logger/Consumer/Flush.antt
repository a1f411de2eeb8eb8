-- ===== src/Logger/Consumer/Flush.antt =====
-- What the consumer of src/malc/malc.c has done when it answers a flush.
use mini_async_log_c.Common.{
  ◌≡◌, refl, sym, ap, ◌∙◌, Option, none, some, List, [], ◌∷◌, ◌++◌, append-nil, append_assoc, map,
}
use mini_async_log_c.Common.BaseLibrary.{IntegerMath, Ringb}
use mini_async_log_c.Serial.Values.{Build}
use mini_async_log_c.Memory.Bounded.{Mpmc}
use mini_async_log_c.Destinations.Types.{PastEntry, Call}
use mini_async_log_c.Destinations.Loops.{flush_loop}
use mini_async_log_c.Destinations.Flushed.{FlushesEach, flush_loop-FlushesEach}
use mini_async_log_c.Destinations.State.{flush}
use mini_async_log_c.EntryParser.Types.{Printing}
use mini_async_log_c.EntryParser.Objects.{ObjTables}
use mini_async_log_c.Logger.{cmd_flush}
use mini_async_log_c.Logger.Consumer.{
  Node, Effect, call, signal_flush, Outside, Malc, Handled, consume,
}
use mini_async_log_c.Logger.Consumer.Order.{prefixed, consume_all}

module _ (b : Build) (im : IntegerMath) (q : Mpmc) (ringb : Ringb PastEntry) (out : Printing)
    (tables : ObjTables) (sys : Outside) where
  abbrev Logger : Type 0
  Logger = Malc b im q ringb out tables sys

  abbrev Out : Type 0
  Out = Option (Logger × List Effect)

  abbrev onto : List Effect → Out → Out
  onto = prefixed b im q ringb out tables sys

  abbrev continued : (Logger → Out) → Out → Out
  continued f none = none
  continued f (some r) = onto r.1 (f r.0)

  onto-nothing : (m : Out) → onto [] m ≡ m
  onto-nothing none = refl
  onto-nothing (some r) = refl

  onto-onto : (x y : List Effect) (m : Out) → onto x (onto y m) ≡ onto (x ++ y) m
  onto-onto x y none = refl
  onto-onto x y (some r) = ap (λ t. some (r.0, t)) (sym (append_assoc x y r.1))

  onto-continued :
      (x : List Effect) (f : Logger → Out) (m : Out)
      → onto x (continued f m) ≡ continued f (onto x m)
  onto-continued x f none = refl
  onto-continued x f (some r) = onto-onto x r.1 (f r.0)

  consume_all-append :
      (ns ms : List Node) (l : Logger)
      → consume_all b im q ringb out tables sys (ns ++ ms) l
        ≡ continued
            (consume_all b im q ringb out tables sys ms)
            (consume_all b im q ringb out tables sys ns l)
  consume_all-append [] ms l = sym (onto-nothing _)
  consume_all-append (n ∷ ns) ms l =
      at (consume b im q ringb out tables sys n l) (λ l. consume_all-append ns ms l)
    where
      at :
          (m : Option (Handled b im q ringb out tables sys))
          → ((l : Logger)
              → consume_all b im q ringb out tables sys (ns ++ ms) l
                ≡ continued
                    (consume_all b im q ringb out tables sys ms)
                    (consume_all b im q ringb out tables sys ns l))
          → ◌≡◌ {A = Out}
              (elim m [
                | none ↦ none
                | some h ↦
                    onto h.effects (consume_all b im q ringb out tables sys (ns ++ ms) h.logger)
              ])
              (continued (consume_all b im q ringb out tables sys ms) (elim m [
                | none ↦ none
                | some h ↦ onto h.effects (consume_all b im q ringb out tables sys ns h.logger)
              ]))
      at none ih = refl
      at (some h) ih =
          ap (onto h.effects) (ih h.logger)
          ∙ onto-continued h.effects (consume_all b im q ringb out tables sys ms)
              (consume_all b im q ringb out tables sys ns h.logger)

  -- A flush after other commands that return: before its caller is told, all the effects of those
  -- commands have been, and each destination of the logger that can be flushed has been, once and in
  -- their order, and no other.
  pub consume_all-flush :
      (ns : List Node) (n : Node) (l : Logger) (r : Logger × List Effect)
      → consume_all b im q ringb out tables sys ns l ≡ some r
      → n.node.cmd ≡ cmd_flush
      → (calls : List Call) × FlushesEach r.0.dst.nodes calls
        × (consume_all b im q ringb out tables sys (ns ++ (n ∷ [])) l
            ≡ some (r.0, r.1 ++ (map call calls ++ (signal_flush n.address ∷ []))))
  unfolding consume flush
  consume_all-flush ns n l r h e = (
    flush_loop 0 r.0.dst.nodes,
    flush_loop-FlushesEach r.0.dst.nodes,
    consume_all-append ns (n ∷ []) l
        ∙ rw (h, consume_all, consume, e) (ap (λ x. some (r.0, r.1 ++ x)) (append-nil _)),
  )

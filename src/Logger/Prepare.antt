-- ===== src/Logger/Prepare.antt =====
-- src/malc/malc.c: an entry that has been prepared has room for all that is serialized into it.
use mathlib.Core.Path.{subst}
use native.Mathlib.Nat.{mod-eq_of_lt}
use mini_async_log_c.Common.{
  ℕ, ◌+◌, ◌*◌, ◌^◌, ◌≤◌, ◌<◌, ◌≡◌, ◌≢◌, refl, inl, inr, Bool, Bool-cases, Option, none, some, List,
  length, Result, ok, err, arith,
}
use mini_async_log_c.Common.BaseLibrary.{IntegerMath}
use mini_async_log_c.Serial.Values.{Build, ConstEntry, Value}
use mini_async_log_c.Serial.Encode.{
  image, serialize_all, payload_size, serializer_init, prepare_external,
}
use mini_async_log_c.Serial.RoundTrip.Entry.{log_entry_size_exact}
use mini_async_log_c.Memory.Bounded.{Mpmc}
use mini_async_log_c.Memory.Sources.{Allocation, Memory, HasRoom, memory_alloc}
use mini_async_log_c.Memory.Room.{memory_alloc-HasRoom}
use mini_async_log_c.Logger.{
  State, is_running, Prepared, max_n_slots, entry_node, node_size, prepared, log_entry_prepare,
}

-- The consumer's `slots + 1` is the number of slots that were allocated.
pub entry_node-slots :
    (timestamp : Bool) (a : Allocation)
    → 0 < a.slots
    → a.slots ≤ 256
    → (entry_node timestamp a).slots + 1 ≡ a.slots
unfolding entry_node
entry_node-slots timestamp a pos few = omega arith

pub some_slots : (n size bytes : ℕ) → 0 < bytes → bytes ≤ n * size → 0 < n
some_slots n size bytes pos h = grind arith

module _ (b : Build) (im : IntegerMath) (q : Mpmc) (sizeof_qnode : ℕ) (some_node : 0 < sizeof_qnode)
    (e : ConstEntry) (entry : ℕ) (timestamp : Bool) (now : ℕ) (vs : List Value) where
  abbrev asked : ℕ
  asked = node_size b im q sizeof_qnode e entry timestamp now (payload_size b im vs)

  -- The node and the bytes of the entry lie in the slots that the node says.
  abbrev pub Inside : ℕ → Prepared → Type 0
  Inside slot_size p =
      sizeof_qnode + length (image (serialize_all b im p.ext_ser vs))
      ≤ (p.node.slots + 1) * slot_size

  -- What `malc_log_entry_prepare` leaves for an allocation.
  abbrev made : Allocation → Prepared
  made a = record {
    mem = a.mem;
    node = entry_node timestamp a;
    ext_ser = prepare_external b im (serializer_init b im e entry timestamp now);
  }

  room-Inside :
      (slot_size : ℕ) (a : Allocation)
      → HasRoom slot_size asked max_n_slots a
      → Inside slot_size (made a)
  unfolding node_size
  room-Inside slot_size a (enough, few) =
      let pos : 0 < a.slots = some_slots a.slots slot_size asked (omega arith) enough in
      rw (entry_node-slots timestamp a pos few)
        (omega (arith, enough, log_entry_size_exact im b e entry timestamp now vs))

  prepared-Inside :
      (slot_size : ℕ) (o : Option (Memory q × Result Allocation)) (m' : Memory q) (p : Prepared)
      → ((m'' : Memory q) (a : Allocation)
          → o ≡ some (m'', ok a)
          → HasRoom slot_size asked max_n_slots a)
      → prepared b im q sizeof_qnode e entry timestamp now o ≡ some (m', ok p)
      → Inside slot_size p
  unfolding prepared
  prepared-Inside slot_size none m' p room eq = cc
  prepared-Inside slot_size (some (m, err x)) m' p room eq = cc
  prepared-Inside slot_size (some (m, ok a)) m' p room eq =
      let same : made a ≡ p = cc in
      subst (Inside slot_size) same (room-Inside slot_size a (room m a refl))

  -- After `malc_log_entry_prepare` succeeds for the payload that the macros compute, the node and
  -- everything that the serialization of the arguments then writes lie inside the slots that the
  -- node records, whichever source the memory came from. The node and a slot have at least a byte,
  -- the size is below 2^32, as are its slots, and the slots that a bounded queue counts for the
  -- size hold it.
  pub log_entry_prepare-Inside :
      (state : State) (m m' : Memory q) (current : ℕ) (bl_alloc : ℕ → Option ℕ) (p : Prepared)
      → m.cfg.slot_size ≢ 0
      → node_size b im q sizeof_qnode e entry timestamp now (payload_size b im vs) < 2 ^ 32
      → im.div_ceil
          (node_size b im q sizeof_qnode e entry timestamp now (payload_size b im vs))
          m.cfg.slot_size
        < 2 ^ 32
      → ((x : q.Queue)
          → node_size b im q sizeof_qnode e entry timestamp now (payload_size b im vs)
            ≤ q.required_slots x
                (node_size b im q sizeof_qnode e entry timestamp now (payload_size b im vs))
              * m.cfg.slot_size)
      → log_entry_prepare b im q sizeof_qnode state m current bl_alloc e entry timestamp now
          (payload_size b im vs)
        ≡ some (m', ok p)
      → Inside m.cfg.slot_size p
  unfolding log_entry_prepare
  log_entry_prepare-Inside state m m' current bl_alloc p h small few hold eq =
      elim (Bool-cases (is_running state)) [
        | inl is ↦
            prepared-Inside m.cfg.slot_size (memory_alloc im q m current bl_alloc asked max_n_slots)
              m' p
              (λ m'' a.
                memory_alloc-HasRoom im q m current bl_alloc asked max_n_slots hold m'' a h few)
              (rw (is, mod-eq_of_lt small) at eq)
        | inr is_not ↦ absurd (cc)
      ]

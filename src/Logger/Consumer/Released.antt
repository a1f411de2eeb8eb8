-- ===== src/Logger/Consumer/Released.antt =====
-- The memory of an entry, from `malc_log_entry_prepare` to its release by the consumer: src/malc/malc.c and
-- src/malc/memory.c.
use mathlib.Core.Path.{subst}
use native.Mathlib.Nat.{mod-eq_of_lt}
use mini_async_log_c.Common.{
  ℕ, ◌*◌, ◌^◌, ◌≤◌, ◌<◌, ◌≡◌, ◌≢◌, refl, ap, inl, inr, Bool, Bool-cases, Option, none, some, List,
  ◌++◌, false, Result, ok, err, arith,
}
use mini_async_log_c.Common.BaseLibrary.{IntegerMath, Ringb}
use mini_async_log_c.Serial.Values.{Build, ConstEntry}
use mini_async_log_c.Serial.Encode.{serializer_init, prepare_external}
use mini_async_log_c.Memory.Bounded.{Mpmc}
use mini_async_log_c.Memory.Sources.{
  Allocation, Memory, free, HasRoom, memory_alloc, memory_dealloc,
}
use mini_async_log_c.Memory.Origin.{
  CameFrom, GivenBack, memory_alloc-CameFrom, memory_dealloc-GivenBack,
}
use mini_async_log_c.Memory.Room.{memory_alloc-HasRoom}
use mini_async_log_c.Destinations.Types.{PastEntry}
use mini_async_log_c.EntryParser.Types.{Printing}
use mini_async_log_c.EntryParser.Objects.{ObjTables}
use mini_async_log_c.Logger.{
  State, is_running, Prepared, max_n_slots, entry_node, node_size, prepared, log_entry_prepare,
}
use mini_async_log_c.Logger.Prepare.{entry_node-slots, some_slots}
use mini_async_log_c.Logger.Consumer.{Node, Outside, Malc, Effect, message, allocation, release}

-- The node that the queue gives for a prepared entry, with any bytes behind it.
abbrev pub node_with : Prepared → List ℕ → Node
node_with p bytes = record { address = p.mem; node = p.node; bytes = bytes; tls_mem = 0 }

module _ (b : Build) (im : IntegerMath) (q : Mpmc) (ringb : Ringb PastEntry) (out : Printing)
    (tables : ObjTables) (sys : Outside) (sizeof_qnode : ℕ) (some_node : 0 < sizeof_qnode)
    (e : ConstEntry) (entry : ℕ) (timestamp : Bool) (now payload : ℕ) where
  abbrev asked : ℕ
  asked = node_size b im q sizeof_qnode e entry timestamp now payload

  abbrev IsAllocation : List ℕ → Allocation → Prepared → Type 0
  IsAllocation bytes a p = allocation b im q ringb out tables sys (node_with p bytes) ≡ a

  abbrev made : Allocation → Prepared
  made a = record {
    mem = a.mem;
    node = entry_node timestamp a;
    ext_ser = prepare_external b im (serializer_init b im e entry timestamp now);
  }

  made-IsAllocation :
      (bytes : List ℕ) (a : Allocation) (size : ℕ)
      → HasRoom size asked max_n_slots a
      → IsAllocation bytes a (made a)
  unfolding node_size entry_node
  made-IsAllocation bytes a size (enough, few) =
      let pos : 0 < a.slots = some_slots a.slots size asked (omega arith) enough in
      ap (λ n. record { mem = a.mem; tag = a.tag; slots = n })
        (entry_node-slots timestamp a pos few)

  prepared-IsAllocation :
      (bytes : List ℕ) (size : ℕ) (o : Option (Memory q × Result Allocation)) (m' : Memory q)
      (p : Prepared)
      → ((m'' : Memory q) (a : Allocation)
          → o ≡ some (m'', ok a)
          → HasRoom size asked max_n_slots a)
      → prepared b im q sizeof_qnode e entry timestamp now o ≡ some (m', ok p)
      → (a : Allocation) × (o ≡ some (m', ok a)) × IsAllocation bytes a p
  unfolding prepared
  prepared-IsAllocation bytes size none m' p room eq = absurd (cc)
  prepared-IsAllocation bytes size (some (m, err x)) m' p room eq = absurd (cc)
  prepared-IsAllocation bytes size (some (m, ok a)) m' p room eq =
      let same : made a ≡ p = cc in
      let kept : m ≡ m' = cc in
      (
        a,
        ap (λ x. some (x, ok a)) kept,
        subst (IsAllocation bytes a) same (made-IsAllocation bytes a size (room m a refl)),
      )

  -- What the consumer releases with the node of an entry is the block that `memory_alloc` gave for it, with
  -- its address and all of its slots, and it is given back to where it came from: a block of the
  -- thread's buffer has its slots set free, one of a bounded queue goes back to the queue that has the
  -- address, and what the allocator gave goes back to it. Nothing else of the logger changes. The
  -- node and a slot have at least a byte, the size is below 2^32, as are its slots, and the slots that a
  -- bounded queue counts for the size hold it.
  pub log_entry_prepare-released :
      (state : State) (m m' : Memory q) (current : ℕ) (bl_alloc : ℕ → Option ℕ) (p : Prepared)
      (bytes : List ℕ) (l : Malc b im q ringb out tables sys) (effects : List Effect)
      → m.cfg.slot_size ≢ 0
      → node_size b im q sizeof_qnode e entry timestamp now payload < 2 ^ 32
      → im.div_ceil (node_size b im q sizeof_qnode e entry timestamp now payload) m.cfg.slot_size
        < 2 ^ 32
      → ((x : q.Queue)
          → node_size b im q sizeof_qnode e entry timestamp now payload
            ≤ q.required_slots x (node_size b im q sizeof_qnode e entry timestamp now payload)
              * m.cfg.slot_size)
      → log_entry_prepare b im q sizeof_qnode state m current bl_alloc e entry timestamp now payload
        ≡ some (m', ok p)
      → (a : Allocation) × (memory_alloc im q m current bl_alloc
            (node_size b im q sizeof_qnode e entry timestamp now payload)
            max_n_slots
          ≡ some (m', ok a))
        × CameFrom im q m current bl_alloc
            (node_size b im q sizeof_qnode e entry timestamp now payload)
            max_n_slots
            a.tag
            a.mem
            a.slots
            m'
        × (back : Memory q × Option ℕ) × GivenBack im q a.tag a.mem a.slots l.mem back
        × (release b im q ringb out tables sys (node_with p bytes) (l, effects) ≡ record {
          logger = record l { mem = back.0 };
          effects = effects ++ message b im q ringb out tables sys back.1;
          stops = false;
        })
  unfolding log_entry_prepare release
  log_entry_prepare-released state m m' current bl_alloc p bytes l effects h small few hold eq =
      elim (Bool-cases (is_running state)) [
        | inr is_not ↦ absurd (cc)
        | inl is ↦
            let (a, given, same) =
              prepared-IsAllocation bytes m.cfg.slot_size
                (memory_alloc im q m current bl_alloc asked max_n_slots) m' p
                (λ m'' a.
                  memory_alloc-HasRoom im q m current bl_alloc asked max_n_slots hold m'' a h few)
                (rw (is, mod-eq_of_lt small) at eq) in
            let came = memory_alloc-CameFrom im q m current bl_alloc asked max_n_slots m' a given in
            (
              a,
              given,
              came,
              memory_dealloc im q l.mem a,
              memory_dealloc-GivenBack im q l.mem a (has_tag a came),
              ap
                  (λ x. record {
                    logger = record l { mem = (memory_dealloc im q l.mem x).0 };
                    effects =
                        effects
                        ++ message b im q ringb out tables sys (memory_dealloc im q l.mem x).1;
                    stops = false;
                  })
                  same,
            )
      ]
    where
      has_tag :
          (a : Allocation)
          → CameFrom im q m current bl_alloc asked max_n_slots a.tag a.mem a.slots m'
          → a.tag ≢ free
      has_tag a came none_given =
          subst (λ t. CameFrom im q m current bl_alloc asked max_n_slots t a.mem a.slots m')
            none_given came

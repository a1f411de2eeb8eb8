-- ===== src/Logger.antt =====
-- src/malc/malc.c: how a producer gets the memory of an entry.
pub mod Prepare
pub mod Consumer
pub mod Lifecycle
use mini_async_log_c.Common.{
  ℕ, ◌+◌, ◌-◌, ◌%◌, ◌^◌, Bool, true, false, Option, none, some, if◌then◌else◌, Result, ok, err,
  preconditions,
}
use mini_async_log_c.Common.BaseLibrary.{IntegerMath}
use mini_async_log_c.Serial.Values.{Build, ConstEntry}
use mini_async_log_c.Serial.Encode.{Serializer, serializer_init, log_entry_size, prepare_external}
use mini_async_log_c.Memory.Bounded.{Mpmc}
use mini_async_log_c.Memory.Sources.{AllocTag, Allocation, Memory, memory_alloc}

-- `enum state`, without the two values that are never set.
pub data State : Type 0 where
  stopped initializing running terminating destructing : State

unfoldable pub is_running : State → Bool
is_running running = true
is_running stopped = false
is_running initializing = false
is_running terminating = false
is_running destructing = false

-- `enum queue_command`
pub data QueueCommand : Type 0 where
  cmd_entry cmd_tls_register cmd_tls_dealloc_deregister cmd_flush cmd_terminate : QueueCommand

-- `qnode` with its `info_byte`, without the hook of the queue. `slots` is a `u8`.
pub record QNode : Type 0 where
  pub has_timestamp : Bool
  pub cmd : QueueCommand
  pub tag : AllocTag
  pub slots : ℕ

-- What a successful `malc_log_entry_prepare` leaves: where the node is, the node, and the serializer.
pub record Prepared : Type 0 where
  pub mem : ℕ
  pub node : QNode
  pub ext_ser : Serializer

-- `1 << (bl_sizeof_member (qnode, slots) * 8)`
abbrev pub max_n_slots : ℕ
max_n_slots = 256

-- The node of an allocation, with `slots - 1` in 32 bits stored in 8.
unfoldable pub entry_node : Bool → Allocation → QNode
entry_node timestamp a = record {
  has_timestamp = timestamp;
  cmd = cmd_entry;
  tag = a.tag;
  slots = (a.slots + (2 ^ 32 - 1)) % 2 ^ 32 % 2 ^ 8;
}

module _ (b : Build) (im : IntegerMath) (q : Mpmc) (sizeof_qnode : ℕ) where
  -- The size that `malc_log_entry_prepare` asks for; `memory_alloc` takes it as a `u32`.
  unfoldable pub node_size : ConstEntry → ℕ → Bool → ℕ → ℕ → ℕ
  node_size e entry timestamp now payload =
      sizeof_qnode + log_entry_size b im (serializer_init b im e entry timestamp now) payload

  -- What follows `memory_alloc`.
  unfoldable pub prepared :
      ConstEntry
      → ℕ
      → Bool
      → ℕ
      → Option (Memory q × Result Allocation)
      → Option (Memory q × Result Prepared)
  unfolding entry_node
  prepared e entry timestamp now none = none
  prepared e entry timestamp now (some (m, err x)) = some (m, err x)
  prepared e entry timestamp now (some (m, ok a)) = some (
    m,
    ok (record {
      mem = a.mem;
      node = entry_node timestamp a;
      ext_ser = prepare_external b im (serializer_init b im e entry timestamp now);
    }),
  )

  -- `malc_log_entry_prepare` of an entry that is not null. `none` is the fault of `memory_alloc`.
  unfoldable pub log_entry_prepare :
      State
      → Memory q
      → ℕ
      → (ℕ → Option ℕ)
      → ConstEntry
      → ℕ
      → Bool
      → ℕ
      → ℕ
      → Option (Memory q × Result Prepared)
  unfolding node_size prepared
  log_entry_prepare state m current bl_alloc e entry timestamp now payload =
      if is_running state
      then prepared e entry timestamp now (
          memory_alloc im q m current bl_alloc (node_size e entry timestamp now payload % 2 ^ 32)
            max_n_slots)
      else some (m, err preconditions)

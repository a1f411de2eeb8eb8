-- ===== src/Wrapper.antt =====
-- The objects of the C++ interface that own a logger: `malcpp` of include/malcpp/impl/malc_base.hpp and
-- src/malcpp/malcpp-template.hpp. What the C functions and the allocator return are arguments.
pub mod Owners
pub mod Construct
pub mod Footer
pub mod Throwing
pub mod StdTypes
pub mod Objects
use mini_async_log_c.Common.{
  ℕ, zero, suc, Bool, true, false, Option, none, some, List, [], ◌∷◌, ◌++◌, if◌then◌else◌, ◌==◌,
  get_or, set, Result, ok, err, BlErr, alloc, invalid,
}

-- The objects that a program has made, each with its handle (`m_ptr`), and the loggers whose memory is
-- allocated. An object that is gone has no handle.
pub record Program : Type 0 where
  pub objects : List (Option ℕ)
  pub live : List ℕ

abbrev pub handle : ℕ → Program → Option ℕ
handle i s = get_or s.objects i none

abbrev pub set_handle : ℕ → Option ℕ → Program → Program
set_handle i h s = record s { objects = set s.objects i h }

-- The memory of a logger is given back.
unfoldable pub dealloc : ℕ → List ℕ → List ℕ
dealloc a [] = []
dealloc a (x ∷ xs) = let rest = dealloc a xs in if x == a then xs else x ∷ rest

-- `construct_impl`, from what the allocator and `malc_create` return.
unfoldable pub construct_impl : ℕ → Option ℕ → Option BlErr → Program → Program × Result (Unit {0})
unfolding dealloc
construct_impl i memory create s = elim (handle i s) [
  | some a ↦ (s, err invalid)
  | none ↦ elim memory [
    | none ↦ (s, err alloc)
    | some a ↦
        let s' = set_handle i (some a) (record s { live = a ∷ s.live }) in
        elim create [
          | none ↦ (s', ok tt)
          | some e ↦ (set_handle i none (record s' { live = dealloc a s'.live }), err e)
        ]
  ]
]

-- `destroy_impl`, from the error of `malc_destroy`.
unfoldable pub destroy_impl : ℕ → Option BlErr → Program → Program × Result (Unit {0})
unfolding dealloc
destroy_impl i destroy s = elim (handle i s) [
  | none ↦ (s, ok tt)
  | some a ↦ elim destroy [
    | some e ↦ (s, err e)
    | none ↦ (set_handle i none (record s { live = dealloc a s.live }), ok tt)
  ]
]

-- The destructor, and that of `wrapper` behind it.
unfoldable pub destructor : ℕ → Bool → Option BlErr → Program → Program
unfolding destroy_impl
destructor i autodestroy destroy s =
    set_handle i none (if autodestroy then (destroy_impl i destroy s).0 else s)

-- A new object, without a handle.
unfoldable pub base_constructor : Program → Program
base_constructor s = record s { objects = s.objects ++ (none ∷ []) }

-- The constructor and the assignment that move from the object `j`.
unfoldable pub move_constructor : ℕ → Program → Program
move_constructor j s = set_handle j none (record s { objects = s.objects ++ (handle j s ∷ []) })

unfoldable pub move_assign : ℕ → ℕ → Program → Program
move_assign i j s = if i == j then s else set_handle j none (set_handle i (handle j s) s)

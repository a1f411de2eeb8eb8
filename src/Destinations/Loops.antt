-- ===== src/Destinations/Loops.antt =====
-- The loops of src/malc/destinations.c over the chain of destinations and over the past entries.
use mini_async_log_c.Common.{
  ℕ, zero, suc, ◌+◌, ◌%◌, ◌^◌, min, max, Bool, false, not, ◌||◌, Option, none, some, List, [], ◌∷◌,
  if◌then◌else◌, leb, ◌==◌,
}
use mini_async_log_c.Destinations.Types.{
  DstCfg, Destination, PastEntry, LogStrings, Call, get_entry_strings, flush_call, terminate_call,
  idle_call, write_call,
}

-- The loop of `destinations_flush`.
unfoldable pub flush_loop : ℕ → List Destination → List Call
flush_loop i [] = []
flush_loop i (d ∷ ds) =
    let rest = flush_loop (suc i) ds in if d.dst.has_flush then flush_call i ∷ rest else rest

-- The loop of `destinations_terminate`.
unfoldable pub terminate_loop : ℕ → List Destination → List Call
terminate_loop i [] = []
terminate_loop i (d ∷ ds) =
    let rest = terminate_loop (suc i) ds in
    let rest' = if d.dst.has_terminate then terminate_call i ∷ rest else rest in
    if d.dst.has_flush then flush_call i ∷ rest' else rest'

-- The loop of `destinations_idle_task`.
unfoldable pub idle_loop :
    (ℕ → DstCfg → DstCfg) → ℕ → List Destination → List Destination × List Call
idle_loop update i [] = ([], [])
idle_loop update i (d ∷ ds) =
    let (ds', calls) = idle_loop update (suc i) ds in
    let d' : Destination = elim d.cfg.severity_file_path [
      | none ↦ d
      | some path ↦ record d { cfg = update path d.cfg }
    ] in
    (d' ∷ ds', if d.dst.has_idle_task then idle_call i ∷ calls else calls)

-- The loop of `destinations_write` without the filter.
unfoldable pub write_all : ℕ → ℕ → LogStrings → ℕ → List Destination → List Call
write_all ns sev strs i [] = []
write_all ns sev strs i (d ∷ ds) =
    let rest = write_all ns sev strs (suc i) ds in
    if leb d.cfg.severity sev then write_call i ns sev (get_entry_strings d strs) ∷ rest else rest

-- The test of `destinations_write` on an entry's last time. `reached now t` says that
-- `bl_timept64_get_diff (now, t) >= 0`.
unfoldable pub is_limited : (ℕ → ℕ → Bool) → Option (ℕ × PastEntry) → DstCfg → ℕ → Bool
is_limited reached none c ns = false
is_limited reached (some (i, e)) c ns =
    if c.log_rate_filter_time_ns == 0
    then false
    else not (reached ns ((e.tprev + c.log_rate_filter_time_ns) % 2 ^ 64))

-- The loop of `destinations_write` with the filter.
unfoldable pub write_filtered :
    (ℕ → ℕ → Bool) → Option (ℕ × PastEntry) → ℕ → ℕ → LogStrings → ℕ → List Destination → List Call
unfolding is_limited
write_filtered reached pe ns sev strs i [] = []
write_filtered reached pe ns sev strs i (d ∷ ds) =
    let rest = write_filtered reached pe ns sev strs (suc i) ds in
    if leb d.cfg.severity sev
    then if is_limited reached pe d.cfg ns
      then rest
      else write_call i ns sev (get_entry_strings d strs) ∷ rest
    else rest

-- An index in a list as one in the list with one more element before it.
unfoldable pub later : Option (ℕ × PastEntry) → Option (ℕ × PastEntry)
later none = none
later (some (i, e)) = some (suc i, e)

-- The linear search of `destinations_write`.
unfoldable pub find : ℕ → List PastEntry → Option (ℕ × PastEntry)
unfolding later
find id [] = none
find id (e ∷ es) = let rest = find id es in if e.entry_id == id then some (0, e) else later rest

-- The lowest severity and the longest filter, from the values at the start of the loop.
unfoldable pub lowest_severity : ℕ → List Destination → ℕ
lowest_severity v [] = v
lowest_severity v (d ∷ ds) = lowest_severity (min v d.cfg.severity) ds

unfoldable pub longest_filter : ℕ → List Destination → ℕ
longest_filter v [] = v
longest_filter v (d ∷ ds) = longest_filter (max v d.cfg.log_rate_filter_time_ns) ds

unfoldable pub any_filter : List Destination → Bool
any_filter [] = false
any_filter (d ∷ ds) = not (d.cfg.log_rate_filter_time_ns == 0) || any_filter ds

-- The destination with an identifier, and the chain with its settings replaced.
unfoldable pub find_destination : List Destination → ℕ → Option Destination
find_destination [] id = none
find_destination (d ∷ ds) zero = some d
find_destination (d ∷ ds) (suc id) = find_destination ds id

unfoldable pub replace_cfg : List Destination → ℕ → DstCfg → List Destination
replace_cfg [] id c = []
replace_cfg (d ∷ ds) zero c = record d { cfg = c } ∷ ds
replace_cfg (d ∷ ds) (suc id) c = d ∷ replace_cfg ds id c

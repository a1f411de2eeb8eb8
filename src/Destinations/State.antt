-- ===== src/Destinations/State.antt =====
-- The operations of src/malc/destinations.c on `destinations`, over the ring buffer of the past entries.
use mini_async_log_c.Common.{
  ℕ, zero, suc, ◌+◌, ◌-◌, ◌%◌, ◌^◌, Bool, true, false, not, ◌&&◌, ◌||◌, Option, none, some, List,
  [], ◌∷◌, ◌++◌, if◌then◌else◌, ltb, ◌==◌, Result, ok, err, alloc, invalid, length, get_or,
}
use mini_async_log_c.Common.BaseLibrary.{Ringb}
use mini_async_log_c.Destinations.Types.{
  sev_note, sev_warning, is_valid_severity, DstCfg, Dst, Destination, PastEntry, LogStrings, Call,
  Security, default_cfg,
}
use mini_async_log_c.Destinations.Loops.{
  flush_loop, terminate_loop, idle_loop, write_all, write_filtered, find, lowest_severity,
  longest_filter, any_filter, find_destination, replace_cfg,
}

module _ (ringb : Ringb PastEntry) where
  -- `destinations`: `nodes` is what `FOREACH_DESTINATION` visits from `mem`.
  pub record Destinations : Type 0 where
    pub nodes : List Destination
    pub min_severity : ℕ
    pub count : ℕ
    pub filter_max_time : ℕ
    pub filter_watch_count : ℕ
    pub filter_min_severity : ℕ
    pub pe : ringb.Ring

  -- `destinations_init` on a ring that was cleared.
  unfoldable pub init : ringb.Ring → Destinations
  init r = record {
    nodes = [];
    min_severity = sev_warning;
    count = 0;
    filter_max_time = 0;
    filter_watch_count = 0;
    filter_min_severity = sev_note;
    pe = r;
  }

  -- `destinations_add`, where `realloc` says whether the memory grows. The first destination lies
  -- at `mem`, where the chain starts, before its `init` has succeeded.
  unfoldable pub add : Bool → Dst → Destinations → Destinations × Result ℕ
  add realloc dst d =
      let x : Destination = record { dst = dst; cfg = default_cfg } in
      let linked = if d.count == 0 then x ∷ [] else d.nodes ++ (x ∷ []) in
      let failed = if d.count == 0 then x ∷ [] else d.nodes in
      let done : Destinations × Result ℕ =
        (record d { nodes = linked; count = d.count + 1 }, ok d.count) in
      if not dst.has_write
      then (d, err invalid)
      else if realloc
      then (elim dst.init [
        | none ↦ done
        | some (ok u) ↦ done
        | some (err e) ↦ (record d { nodes = failed }, err e)
      ])
      else (d, err alloc)

  -- `destinations_set_rate_limit_settings_impl`; `next_pow2` is `bl_round_next_pow2_u32`.
  unfoldable pub set_rate_limit_settings_impl :
      (ℕ → ℕ) → Security → Bool → Destinations → Destinations × Result (Unit {0})
  set_rate_limit_settings_impl next_pow2 sec validate_only d =
      let enabled = not (sec.log_rate_filter_watch_count == 0) && any_filter d.nodes in
      let wc = if enabled then next_pow2 sec.log_rate_filter_watch_count else 0 in
      if enabled && (ltb 64 wc || not (is_valid_severity sec.log_rate_filter_min_severity))
      then (d, err invalid)
      else if validate_only
      then (d, ok tt)
      else if enabled
      then (let d' = record d {
        filter_watch_count = wc;
        filter_max_time = longest_filter 0 d.nodes;
        filter_min_severity = sec.log_rate_filter_min_severity;
      } in
          elim (ringb.init wc) [ ok r ↦ (record d' { pe = r }, ok tt) | err e ↦ (d', err e) ])
      else (record d { filter_watch_count = 0 }, ok tt)

  -- `destinations_get_rate_limit_settings`
  unfoldable pub get_rate_limit_settings : Destinations → Security
  get_rate_limit_settings d = record {
    log_rate_filter_watch_count = d.filter_watch_count;
    log_rate_filter_min_severity = d.filter_min_severity;
  }

  -- `destinations_terminate`
  unfoldable pub terminate : Destinations → Destinations × List Call
  terminate d = (record d { nodes = []; count = 0 }, terminate_loop 0 d.nodes)

  -- `destinations_flush`
  unfoldable pub flush : Destinations → List Call
  flush d = flush_loop 0 d.nodes

  -- The loop of `entry_filter_idle` on fuel. The entry at `i` is dropped, and `i` stands still, when
  -- its time is up.
  unfoldable pub entry_filter_idle_loop : (ℕ → ℕ → Bool) → ℕ → ℕ → ℕ → ℕ → ringb.Ring → ringb.Ring
  entry_filter_idle_loop reached now max_time zero i r = r
  entry_filter_idle_loop reached now max_time (suc fuel) i r =
      let e = get_or (ringb.to_list r) i (record { entry_id = 0; tprev = 0 }) in
      if ltb i (length (ringb.to_list r))
      then (elim (reached now ((e.tprev + max_time) % 2 ^ 64)) [
        | true ↦ entry_filter_idle_loop reached now max_time fuel i (ringb.drop_at r i)
        | false ↦ entry_filter_idle_loop reached now max_time fuel (suc i) r
      ])
      else r

  -- `entry_filter_idle`: each round drops an entry or passes it, so the entries bound the rounds.
  unfoldable pub entry_filter_idle : (ℕ → ℕ → Bool) → ℕ → ℕ → ringb.Ring → ringb.Ring
  unfolding entry_filter_idle_loop
  entry_filter_idle reached now max_time r =
      let r' = entry_filter_idle_loop reached now max_time (length (ringb.to_list r)) 0 r in
      if length (ringb.to_list r') == 0 then ringb.set_start r' else r'

  -- `destinations_idle_task`
  unfoldable pub idle_task :
      (ℕ → ℕ → Bool) → (ℕ → DstCfg → DstCfg) → ℕ → Destinations → Destinations × List Call
  idle_task reached update now d =
      let (nodes, calls) = idle_loop update 0 d.nodes in
      (record d { nodes = nodes; pe = entry_filter_idle reached now d.filter_max_time d.pe }, calls)

  -- The end of `destinations_write`: the entry's time is stored, in a new element if it had none.
  unfoldable pub remember : ℕ → ℕ → Option (ℕ × PastEntry) → ringb.Ring → ringb.Ring
  remember id ns (some (i, e)) r = ringb.set_at r i (record { entry_id = e.entry_id; tprev = ns })
  remember id ns none r =
      ringb.expand_tail (if ringb.can_insert r then r else ringb.drop_head r)
        (record { entry_id = id; tprev = ns })

  -- `destinations_write`
  unfoldable pub write :
      (ℕ → ℕ → Bool) → ℕ → ℕ → ℕ → LogStrings → Destinations → Destinations × List Call
  unfolding find remember
  write reached id ns sev strs d =
      if (d.filter_watch_count == 0) || ltb sev d.filter_min_severity
      then (d, write_all ns sev strs 0 d.nodes)
      else (let pe = find id (ringb.to_list d.pe) in
          (
            record d { pe = remember id ns pe d.pe },
            write_filtered reached pe ns sev strs 0 d.nodes,
          ))

  -- `destinations_get_cfg`
  unfoldable pub get_cfg : Destinations → ℕ → Result DstCfg
  get_cfg d id = elim (find_destination d.nodes id) [ none ↦ err invalid | some x ↦ ok x.cfg ]

  -- `destinations_set_cfg`
  unfoldable pub set_cfg : DstCfg → ℕ → Destinations → Destinations × Result (Unit {0})
  set_cfg c id d = elim (find_destination d.nodes id) [
    | none ↦ (d, err invalid)
    | some x ↦
        (let nodes = replace_cfg d.nodes id c in
          (
            record d {
              nodes = nodes;
              min_severity = lowest_severity (2 ^ 32 - 1) nodes;
              filter_max_time = longest_filter 0 nodes;
            },
            ok tt,
          ))
  ]

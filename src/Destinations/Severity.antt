-- ===== src/Destinations/Severity.antt =====
-- src/malc/destinations.c: which severities reach a destination.
use mini_async_log_c.Common.{
  ℕ, suc, ◌+◌, ◌^◌, ◌-◌, ◌≤◌, ◌<◌, min, ◌≡◌, ◌≢◌, refl, inl, inr, Bool, true, false, Option, none,
  some, List, [], ◌∷◌, ◌++◌, if◌then◌else◌, ltb, leb, ◌==◌, ◌||◌, Bool-cases, length, All, err,
  BlErr, arith,
}
use mini_async_log_c.Common.BaseLibrary.{Ringb}
use mini_async_log_c.Destinations.Types.{
  Destination, Dst, DstCfg, PastEntry, LogStrings, Call, sev_warning, default_cfg,
}
use mini_async_log_c.Destinations.Loops.{
  write_all, write_filtered, lowest_severity, longest_filter, find_destination, replace_cfg,
}
use mini_async_log_c.Destinations.State.{Destinations, write, add, set_cfg, init}

-- No destination of the chain wants a severity below `v`.
abbrev pub AtLeast : ℕ → Destination → Type 0
AtLeast v d = v ≤ d.cfg.severity

lowest_severity-le : (v : ℕ) (ds : List Destination) → lowest_severity v ds ≤ v
unfolding lowest_severity
lowest_severity-le v [] = omega arith
lowest_severity-le v (d ∷ ds) = omega (arith, lowest_severity-le (min v d.cfg.severity) ds)

lowest_severity-AtLeast :
    (v w : ℕ) (ds : List Destination) → w ≤ lowest_severity v ds → All (AtLeast w) ds
unfolding lowest_severity
lowest_severity-AtLeast v w [] h = tt
lowest_severity-AtLeast v w (d ∷ ds) h = (
  omega (arith, lowest_severity-le (min v d.cfg.severity) ds),
  lowest_severity-AtLeast (min v d.cfg.severity) w ds h,
)

write_all-below :
    (m ns sev : ℕ) (strs : LogStrings) (i : ℕ) (ds : List Destination)
    → sev < m
    → All (AtLeast m) ds
    → write_all ns sev strs i ds ≡ []
unfolding write_all
write_all-below m ns sev strs i [] h all = refl
write_all-below m ns sev strs i (d ∷ ds) h (a, all) =
    let below : leb d.cfg.severity sev ≡ false = ground arith in
    rw below (write_all-below m ns sev strs (suc i) ds h all)

cons-ne-nil : (c : Call) (cs : List Call) → c ∷ cs ≢ []
cons-ne-nil c cs e = absurd (cc)

-- A wanted severity is written to the first destination that wants it.
write_all-wanted :
    (v ns sev : ℕ) (strs : LogStrings) (i : ℕ) (ds : List Destination)
    → lowest_severity v ds ≤ sev
    → sev < v
    → write_all ns sev strs i ds ≢ []
unfolding write_all lowest_severity
write_all-wanted v ns sev strs i [] h lt e = omega arith
write_all-wanted v ns sev strs i (d ∷ ds) h lt e = elim (Bool-cases (leb d.cfg.severity sev)) [
  | inl b ↦ cons-ne-nil _ _ (rw b at e)
  | inr b ↦
      write_all-wanted (min v d.cfg.severity) ns sev strs (suc i) ds h (ground arith) (rw b at e)
]

write_all-last :
    (ns sev : ℕ) (strs : LogStrings) (i : ℕ) (ds : List Destination) (x : Destination)
    → leb x.cfg.severity sev ≡ true
    → write_all ns sev strs i (ds ++ (x ∷ [])) ≢ []
unfolding write_all
write_all-last ns sev strs i [] x h e = cons-ne-nil _ _ (rw h at e)
write_all-last ns sev strs i (d ∷ ds) x h e = elim (Bool-cases (leb d.cfg.severity sev)) [
  | inl b ↦ cons-ne-nil _ _ (rw b at e)
  | inr b ↦ write_all-last ns sev strs (suc i) ds x h (rw b at e)
]

module _ (ringb : Ringb PastEntry) (reached : ℕ → ℕ → Bool) (id ns : ℕ) (strs : LogStrings) where
  write_filtered-below :
      (m sev : ℕ) (pe : Option (ℕ × PastEntry)) (i : ℕ) (ds : List Destination)
      → sev < m
      → All (AtLeast m) ds
      → write_filtered reached pe ns sev strs i ds ≡ []
  unfolding write_filtered
  write_filtered-below m sev pe i [] h all = refl
  write_filtered-below m sev pe i (d ∷ ds) h (a, all) =
      let below : leb d.cfg.severity sev ≡ false = ground arith in
      rw below (write_filtered-below m sev pe (suc i) ds h all)

  write-below :
      (m sev : ℕ) (d : Destinations ringb)
      → sev < m
      → All (AtLeast m) d.nodes
      → (write ringb reached id ns sev strs d).1 ≡ []
  unfolding write
  write-below m sev d h all =
      elim (Bool-cases ((d.filter_watch_count == 0) || ltb sev d.filter_min_severity)) [
        | inl b ↦ rw b (write_all-below m ns sev strs 0 d.nodes h all)
        | inr b ↦ rw b (write_filtered-below m sev _ 0 d.nodes h all)
      ]

  write-unfiltered :
      (sev : ℕ) (d : Destinations ringb)
      → d.filter_watch_count ≡ 0
      → (write ringb reached id ns sev strs d).1 ≡ write_all ns sev strs 0 d.nodes
  unfolding write
  write-unfiltered sev d off = rw off refl

  -- The state after a successful `destinations_set_cfg`.
  unfoldable configured : DstCfg → ℕ → Destinations ringb → Destinations ringb
  configured c dest_id d = record d {
    nodes = replace_cfg d.nodes dest_id c;
    min_severity = lowest_severity (2 ^ 32 - 1) (replace_cfg d.nodes dest_id c);
    filter_max_time = longest_filter 0 (replace_cfg d.nodes dest_id c);
  }

  set_cfg-configured :
      (c : DstCfg) (dest_id : ℕ) (d : Destinations ringb) (x : Destination)
      → find_destination d.nodes dest_id ≡ some x
      → (set_cfg ringb c dest_id d).0 ≡ configured c dest_id d
  unfolding set_cfg configured
  set_cfg-configured c dest_id d x e = rw (set_cfg, e) refl

  -- The state after a `destinations_add` without an `init`.
  unfoldable linked : Dst → Destinations ringb → Destinations ringb
  linked dst d =
      let x : Destination = record { dst = dst; cfg = default_cfg } in
      record d {
        nodes = (if d.count == 0 then x ∷ [] else d.nodes ++ (x ∷ []));
        count = d.count + 1;
      }

  add-linked :
      (dst : Dst) (d : Destinations ringb)
      → dst.has_write ≡ true
      → dst.init ≡ none
      → (add ringb true dst d).0 ≡ linked dst d
  unfolding add linked
  add-linked dst d has no_init = simp (has, no_init)

  -- An entry below the severity that `destinations_min_severity` reports reaches no destination
  -- after a successful `destinations_set_cfg`, with the rate filter on or off.
  pub set_cfg-write_below :
      (c : DstCfg) (dest_id sev : ℕ) (d : Destinations ringb) (x : Destination)
      → find_destination d.nodes dest_id ≡ some x
      → sev < (set_cfg ringb c dest_id d).0.min_severity
      → (write ringb reached id ns sev strs (set_cfg ringb c dest_id d).0).1 ≡ []
  unfolding configured
  set_cfg-write_below c dest_id sev d x e h =
      let same = set_cfg-configured c dest_id d x e in
      rw same (
        write-below (lowest_severity (2 ^ 32 - 1) (replace_cfg d.nodes dest_id c)) sev
          (configured c dest_id d) (rw same at h)
          (lowest_severity-AtLeast (2 ^ 32 - 1) _ _ (omega arith)))

  -- An entry at or above the reported severity, and below 2^32 - 1, is written to at least one
  -- destination after a successful `destinations_set_cfg`, where the rate filter is off.
  pub set_cfg-write_above :
      (c : DstCfg) (dest_id sev : ℕ) (d : Destinations ringb) (x : Destination)
      → find_destination d.nodes dest_id ≡ some x
      → d.filter_watch_count ≡ 0
      → (set_cfg ringb c dest_id d).0.min_severity ≤ sev
      → sev < 2 ^ 32 - 1
      → (write ringb reached id ns sev strs (set_cfg ringb c dest_id d).0).1 ≢ []
  unfolding configured
  set_cfg-write_above c dest_id sev d x e off h lt =
      let same = set_cfg-configured c dest_id d x e in
      rw (same, write-unfiltered sev (configured c dest_id d) off)
        (write_all-wanted (2 ^ 32 - 1) ns sev strs 0 (replace_cfg d.nodes dest_id c) (rw same at h)
          lt)

  -- Adding a destination that has a `write` and no `init` leaves the reported severity as it is,
  -- so where that is above a warning it promises to skip warnings that the new destination is
  -- written, the rate filter being off.
  pub add-write_warning :
      (dst : Dst) (d : Destinations ringb)
      → dst.has_write ≡ true
      → dst.init ≡ none
      → d.filter_watch_count ≡ 0
      → sev_warning < d.min_severity
      → ((add ringb true dst d).0.min_severity ≡ d.min_severity)
        × ((write ringb reached id ns sev_warning strs (add ringb true dst d).0).1 ≢ [])
  unfolding linked default_cfg
  add-write_warning dst d has no_init off lt =
      rw (add-linked dst d has no_init, write-unfiltered sev_warning (linked dst d) off)
        (
          refl,
          elim (Bool-cases (d.count == 0)) [
            | inl b ↦ rw b (write_all-last ns sev_warning strs 0 [] _ refl)
            | inr b ↦ rw b (write_all-last ns sev_warning strs 0 d.nodes _ refl)
          ],
        )

  -- A first destination with a `write` whose `init` fails is not counted, yet a warning is written
  -- to it all the same.
  pub add-write_failed :
      (dst : Dst) (x : BlErr) (r : ringb.Ring)
      → dst.has_write ≡ true
      → dst.init ≡ some (err x)
      → ((add ringb true dst (init ringb r)).1 ≡ err x)
        × ((add ringb true dst (init ringb r)).0.count ≡ 0)
        × (length
              (write ringb reached id ns sev_warning strs (add ringb true dst (init ringb r)).0).1
            ≡ 1)
  unfolding add write init write_all default_cfg
  add-write_failed dst x r has failed = rw (has, failed) (refl, refl, refl)

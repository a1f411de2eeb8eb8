-- ===== src/Destinations/RateFilter.antt =====
-- src/malc/destinations.c: what the rate filter of `destinations_write` holds back, and what
-- `entry_filter_idle` forgets.
use mini_async_log_c.Common.{
  ◌∙◌, ℕ, suc, ◌+◌, ◌%◌, ◌^◌, ◌≤◌, ◌<◌, ◌≡◌, ◌≢◌, refl, sym, inl, inr, Bool, true, false, Option,
  none, some, List, [], ◌∷◌, ◌++◌, append_assoc, if◌then◌else◌, ltb, leb, ◌==◌, ==_ne, ==_refl,
  le→ltb, ltb→lt, Bool-cases, length, length-append, get_or, get_or_middle, remove_middle, drop,
  set, All, arith,
}
use mini_async_log_c.Common.BaseLibrary.{Ringb}
use mini_async_log_c.Destinations.Types.{Destination, PastEntry, LogStrings}
use mini_async_log_c.Destinations.Loops.{find, is_limited, write_filtered, later}
use mini_async_log_c.Destinations.State.{
  Destinations, remember, write, entry_filter_idle_loop, entry_filter_idle,
}

-- The past entries whose time is not up, in their order.
unfoldable pub waiting : (ℕ → ℕ → Bool) → ℕ → ℕ → List PastEntry → List PastEntry
waiting reached now t [] = []
waiting reached now t (e ∷ es) =
    let rest = waiting reached now t es in
    if reached now ((e.tprev + t) % 2 ^ 64) then rest else e ∷ rest

module _ (ringb : Ringb PastEntry) (reached : ℕ → ℕ → Bool) where
  entry_filter_idle_loop-waiting :
      (now t : ℕ) (kept rest : List PastEntry) (r : ringb.Ring)
      → ringb.to_list r ≡ kept ++ rest
      → ringb.to_list (entry_filter_idle_loop ringb reached now t (length rest) (length kept) r)
        ≡ kept ++ waiting reached now t rest
  unfolding entry_filter_idle_loop waiting
  entry_filter_idle_loop-waiting now t kept [] r e = e
  entry_filter_idle_loop-waiting now t kept (x ∷ rest) r e =
      let room : ltb (length kept) (length (ringb.to_list r)) ≡ true =
        rw e (ground (arith, length-append kept (x ∷ rest))) in
      let entry : get_or (ringb.to_list r) (length kept) (record { entry_id = 0; tprev = 0 }) ≡ x =
        rw e (get_or_middle kept rest x _) in
      let next_place : length (kept ++ (x ∷ [])) ≡ suc (length kept) =
        omega (arith, length-append kept (x ∷ [])) in
      elim (Bool-cases (reached now ((x.tprev + t) % 2 ^ 64))) [
        | inl b ↦
            rw (room, entry, b)
              (entry_filter_idle_loop-waiting now t kept rest (ringb.drop_at r (length kept))
                (rw (ringb.to_list-drop_at, e) (remove_middle kept rest x)))
        | inr b ↦
            rw (room, entry, b)
              (rw (next_place, append_assoc kept (x ∷ []) (waiting reached now t rest)) at
                (entry_filter_idle_loop-waiting now t (kept ++ (x ∷ [])) rest r
                  (rw (append_assoc kept (x ∷ []) rest) e)))
      ]

  -- `entry_filter_idle` leaves the entries whose time is not up, in their order, and no other: no
  -- entry is skipped when one before it is dropped.
  pub entry_filter_idle-waiting :
      (now t : ℕ) (r : ringb.Ring)
      → ringb.to_list (entry_filter_idle ringb reached now t r)
        ≡ waiting reached now t (ringb.to_list r)
  unfolding entry_filter_idle
  entry_filter_idle-waiting now t r =
      started _ _ (entry_filter_idle_loop-waiting now t [] (ringb.to_list r) r refl)
    where
      positive : (n : ℕ) → suc n ≢ 0
      positive n f = omega arith

      started :
          (r' : ringb.Ring) (l : List PastEntry)
          → ringb.to_list r' ≡ l
          → ringb.to_list (if length (ringb.to_list r') == 0 then ringb.set_start r' else r') ≡ l
      started r' [] e = rw e (ringb.to_list-set_start r' e)
      started r' (x ∷ l) e = rw (e, ==_ne (positive (length l))) e

  -- An entry was found, and its time is `ns`.
  abbrev pub At : ℕ → Option (ℕ × PastEntry) → Type 0
  At ns none = ⊥
  At ns (some (i, e)) = e.tprev ≡ ns

  At-later : (ns : ℕ) (o : Option (ℕ × PastEntry)) → At ns o → At ns (later o)
  unfolding later
  At-later ns none h = absurd h
  At-later ns (some (i, e)) h = h

  -- The entries with the one found refreshed, or a new one at the end.
  unfoldable refresh : ℕ → ℕ → List PastEntry → Option (ℕ × PastEntry) → List PastEntry
  refresh id ns es none = es ++ (record { entry_id = id; tprev = ns } ∷ [])
  refresh id ns es (some (i, e)) = set es i (record { entry_id = e.entry_id; tprev = ns })

  refresh-later :
      (id ns : ℕ) (x : PastEntry) (es : List PastEntry) (o : Option (ℕ × PastEntry))
      → refresh id ns (x ∷ es) (later o) ≡ x ∷ refresh id ns es o
  unfolding refresh later
  refresh-later id ns x es none = refl
  refresh-later id ns x es (some (i, e)) = refl

  find-refresh : (id ns : ℕ) (es : List PastEntry) → At ns (find id (refresh id ns es (find id es)))
  unfolding refresh find
  find-refresh id ns [] = rw (==_refl id) refl
  find-refresh id ns (x ∷ es) = elim (Bool-cases (x.entry_id == id)) [
    | inl b ↦ rw (b, b) refl
    | inr b ↦
        rw (b, refresh-later id ns x es (find id es), b) (At-later ns _ (find-refresh id ns es))
  ]

  find-drop : (id : ℕ) (es : List PastEntry) → find id es ≡ none → find id (drop 1 es) ≡ none
  unfolding find later
  find-drop id [] h = refl
  find-drop id (x ∷ es) h = elim (Bool-cases (x.entry_id == id)) [
    | inl b ↦ let h' : some (0, x) ≡ none = rw b at h in absurd (cc)
    | inr b ↦ later-none (find id es) (rw b at h)
  ]
    where
      later-none : (o : Option (ℕ × PastEntry)) → later o ≡ none → o ≡ none
      later-none none e = refl
      later-none (some (i, x)) e = absurd (cc)

  drop_lt : (es : List PastEntry) (c : ℕ) → c ≢ 0 → length es ≤ c → length (drop 1 es) < c
  drop_lt [] c h le = omega arith
  drop_lt (x ∷ es) c h le = omega arith

  remember-At :
      (id ns : ℕ) (r : ringb.Ring) (o : Option (ℕ × PastEntry))
      → ringb.capacity r ≢ 0
      → find id (ringb.to_list r) ≡ o
      → At ns (find id (ringb.to_list (remember ringb id ns o r)))
  unfolding remember refresh
  remember-At id ns r (some (i, x)) h e =
      rw (ringb.to_list-set_at) (rw e at (find-refresh id ns (ringb.to_list r)))
  remember-At id ns r none h e = elim (Bool-cases (ringb.can_insert r)) [
    | inl b ↦
        rw (remember, b)
          (rw (ringb.to_list-expand_tail r _ (ltb→lt _ _ (sym (ringb.can_insert_lem r) ∙ b)))
            (rw e at (find-refresh id ns (ringb.to_list r))))
    | inr b ↦
        rw (remember, b)
          (rw
            (
              ringb.to_list-expand_tail (ringb.drop_head r) _ (
                  rw (ringb.to_list-drop_head, ringb.capacity-drop_head)
                    (drop_lt (ringb.to_list r) (ringb.capacity r) h (ringb.bounded r))),
              ringb.to_list-drop_head,
            )
            (rw (find-drop id (ringb.to_list r) e) at
              (find-refresh id ns (drop 1 (ringb.to_list r)))))
  ]

  -- A destination that filters, before its time after `before`.
  abbrev pub Held : ℕ → ℕ → Destination → Type 0
  Held before ns d =
      (d.cfg.log_rate_filter_time_ns ≢ 0)
      × (reached ns ((before + d.cfg.log_rate_filter_time_ns) % 2 ^ 64) ≡ false)

  write_filtered-Held :
      (o : Option (ℕ × PastEntry)) (before ns sev : ℕ) (strs : LogStrings) (i : ℕ)
      (ds : List Destination)
      → At before o
      → All (Held before ns) ds
      → write_filtered reached o ns sev strs i ds ≡ []
  unfolding write_filtered is_limited
  write_filtered-Held none before ns sev strs i ds h all = absurd h
  write_filtered-Held (some (j, e)) before ns sev strs i [] h all = refl
  write_filtered-Held (some (j, e)) before ns sev strs i (d ∷ ds) h (held, all) =
      elim (Bool-cases (leb d.cfg.severity sev)) [
        | inl b ↦
            rw (b, ==_ne held.0, h, held.1)
              (write_filtered-Held (some (j, e)) before ns sev strs (suc i) ds h all)
        | inr b ↦ rw b (write_filtered-Held (some (j, e)) before ns sev strs (suc i) ds h all)
      ]

  write-filtering :
      (id ns sev : ℕ) (strs : LogStrings) (d : Destinations ringb)
      → d.filter_watch_count ≢ 0
      → d.filter_min_severity ≤ sev
      → write ringb reached id ns sev strs d ≡ (
        record d { pe = remember ringb id ns (find id (ringb.to_list d.pe)) d.pe },
        write_filtered reached (find id (ringb.to_list d.pe)) ns sev strs 0 d.nodes,
      )
  unfolding write
  write-filtering id ns sev strs d on h = rw (==_ne on, le→ltb sev d.filter_min_severity h) refl

  -- An entry that the filter covers and that is logged again while every destination filters and
  -- its time is not up reaches none of them, whatever the texts and the other entries known. The
  -- filter is on and its ring has room for an entry; both severities are at or above the filter's.
  pub write-repeated :
      (id before ns sev sev' : ℕ) (strs strs' : LogStrings) (d : Destinations ringb)
      → d.filter_watch_count ≢ 0
      → d.filter_min_severity ≤ sev
      → d.filter_min_severity ≤ sev'
      → ringb.capacity d.pe ≢ 0
      → All (Held before ns) d.nodes
      → (write ringb reached id ns sev' strs' (write ringb reached id before sev strs d).0).1 ≡ []
  write-repeated id before ns sev sev' strs strs' d on h h' room all =
      let d' : Destinations ringb = record d {
        pe = remember ringb id before (find id (ringb.to_list d.pe)) d.pe;
      } in
      rw (write-filtering id before sev strs d on h, write-filtering id ns sev' strs' d' on h')
        (write_filtered-Held _ before ns sev' strs' 0 d.nodes
          (remember-At id before d.pe (find id (ringb.to_list d.pe)) room refl) all)

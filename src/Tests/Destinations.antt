-- ===== src/Tests/Destinations.antt =====
-- Destinations that filter, and arrays that wrap: src/malc/destinations.c and
-- src/malc/destinations/array.c.
use mathlib.Core.Option.{map}
use mini_async_log_c.Common.{
  ℕ, ◌-◌, ◌<◌, ◌≤◌, ◌≡◌, ◌≢◌, refl, Bool, true, false, none, some, [], ◌∷◌, length, err, file, leb,
  arith,
}
use mini_async_log_c.Destinations.Types.{Dst, DstCfg, PastEntry, LogStrings, sev_warning}
use mini_async_log_c.Destinations.Loops.{find_destination, replace_cfg, lowest_severity}
use mini_async_log_c.Destinations.State.{Destinations, write, add, set_cfg, init, entry_filter_idle}
use mini_async_log_c.Destinations.RateFilter.{waiting, entry_filter_idle-waiting, write-repeated}
use mini_async_log_c.Destinations.Severity.{
  set_cfg-write_below, add-write_warning, add-write_failed,
}
use mini_async_log_c.ArrayDst
use mini_async_log_c.ArrayDst.{read_string, get_entry}
use mini_async_log_c.ArrayDst.Text.{entry_text}
use mini_async_log_c.ArrayDst.Newest.{newest_entry, newest_entry_lost}
use mini_async_log_c.Tests.Library.{ListRing, ringb}

abbrev reached : ℕ → ℕ → Bool
reached now t = leb t now

abbrev console : Dst
console = record {
  size_of = 16;
  init = none;
  has_terminate = false;
  has_flush = true;
  has_idle_task = false;
  has_write = true;
}

abbrev quiet : DstCfg
quiet = record {
  log_rate_filter_time_ns = 100;
  show_timestamp = true;
  show_severity = false;
  severity = 56;
  severity_file_path = none;
}

abbrev texts : LogStrings
texts = record { timestamp = 49 ∷ []; sev = 87 ∷ []; text = 104 ∷ 105 ∷ [] }

abbrev past : ListRing PastEntry
past = record { items = record { entry_id = 4; tprev = 10 } ∷ []; room = 1 }

abbrev filtering : Destinations (ringb PastEntry)
filtering = record {
  nodes = record { dst = console; cfg = quiet } ∷ [];
  min_severity = 56;
  count = 1;
  filter_max_time = 100;
  filter_watch_count = 2;
  filter_min_severity = 53;
  pe = past;
}

abbrev plain : Destinations (ringb PastEntry)
plain = record filtering { filter_watch_count = 0 }

entry_filter_idle-waiting_example :
    (entry_filter_idle (ringb PastEntry) reached 200 100 past).items
    ≡ waiting reached 200 100 past.items
entry_filter_idle-waiting_example = entry_filter_idle-waiting (ringb PastEntry) reached 200 100 past

write-repeated_example :
    (write
      (ringb PastEntry)
      reached
      9
      150
      56
      texts
      (write (ringb PastEntry) reached 9 100 56 texts filtering).0).1
    ≡ []
write-repeated_example =
    write-repeated (ringb PastEntry) reached 9 100 150 56 56 texts texts filtering
      (λ e. omega arith) (omega arith) (omega arith) (λ e. omega arith)
      ((λ e. omega arith, refl), tt)

found : find_destination filtering.nodes 0 ≡ some (record { dst = console; cfg = quiet })
unfolding find_destination
found = refl

below : 54 < (set_cfg (ringb PastEntry) quiet 0 filtering).0.min_severity
unfolding set_cfg find_destination replace_cfg lowest_severity
below = omega arith

set_cfg-write_below_example :
    (write
      (ringb PastEntry)
      reached
      9
      150
      54
      texts
      (set_cfg (ringb PastEntry) quiet 0 filtering).0).1
    ≡ []
set_cfg-write_below_example =
    set_cfg-write_below (ringb PastEntry) reached 9 150 texts quiet 0 54 filtering
      (record { dst = console; cfg = quiet }) found below

above : (set_cfg (ringb PastEntry) quiet 0 plain).0.min_severity ≤ 56
unfolding set_cfg find_destination replace_cfg lowest_severity
above = omega arith

add-write_warning_example :
    ((add (ringb PastEntry) true console plain).0.min_severity ≡ 56)
    × ((write
          (ringb PastEntry)
          reached
          9
          150
          sev_warning
          texts
          (add (ringb PastEntry) true console plain).0).1
        ≢ [])
add-write_warning_example =
    add-write_warning (ringb PastEntry) reached 9 150 texts console plain refl refl refl
      (omega arith)

abbrev broken : Dst
broken = record console { init = some (err file) }

add-write_failed_example :
    ((add (ringb PastEntry) true broken (init (ringb PastEntry) past)).1 ≡ err file)
    × ((add (ringb PastEntry) true broken (init (ringb PastEntry) past)).0.count ≡ 0)
    × (length
          (write
            (ringb PastEntry)
            reached
            9
            150
            sev_warning
            texts
            (add (ringb PastEntry) true broken (init (ringb PastEntry) past)).0).1
        ≡ 1)
add-write_failed_example =
    add-write_failed (ringb PastEntry) reached 9 150 texts broken file past refl refl

-- Four entries, and three, of eight characters, each with the tail at the last.
abbrev four : ArrayDst.ArrayDst
four = record { has_mem = true; mem = λ a. 0; mem_entries = 4; entry_chars = 8; tail = 3; size = 3 }

abbrev three : ArrayDst.ArrayDst
three = record {
  has_mem = true;
  mem = λ a. 0;
  mem_entries = 3;
  entry_chars = 8;
  tail = 2;
  size = 2;
}

newest_entry_example :
    map
      (read_string (ArrayDst.write texts four).mem 8)
      (get_entry (ArrayDst.write texts four) ((ArrayDst.write texts four).size - 1))
    ≡ some (entry_text 7 texts)
newest_entry_example =
    newest_entry texts four (refl, omega arith, omega arith, omega arith, omega arith, omega arith)
      refl
      ((λ e. omega arith), ((λ e. omega arith), ((λ e. omega arith), ((λ e. omega arith), tt))))

newest_entry_lost_example :
    get_entry (ArrayDst.write texts three) ((ArrayDst.write texts three).size - 1) ≢ some 16
newest_entry_lost_example =
    newest_entry_lost texts three
      (refl, omega arith, omega arith, omega arith, omega arith, omega arith) (λ e. omega arith)
      refl

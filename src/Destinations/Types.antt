-- ===== src/Destinations/Types.antt =====
-- The types of src/malc/destinations.h and of include/malc/common.h that the destinations use. The
-- calls of a destination's functions are values, in the order they are made, each with the index of
-- its destination in the chain that `FOREACH_DESTINATION` walks.
use mini_async_log_c.Common.{
  ℕ, Bool, true, ◌&&◌, Option, none, some, List, [], if◌then◌else◌, leb, Result,
}

-- The severities of include/malc/common.h.
abbrev pub sev_debug : ℕ
sev_debug = 51

abbrev pub sev_trace : ℕ
sev_trace = 52

abbrev pub sev_note : ℕ
sev_note = 53

abbrev pub sev_warning : ℕ
sev_warning = 54

abbrev pub sev_error : ℕ
sev_error = 55

abbrev pub sev_critical : ℕ
sev_critical = 56

unfoldable pub is_valid_severity : ℕ → Bool
is_valid_severity sev = leb sev_debug sev && leb sev sev_critical

-- `malc_dst_cfg`; a path is a number.
pub record DstCfg : Type 0 where
  pub log_rate_filter_time_ns : ℕ
  pub show_timestamp : Bool
  pub show_severity : Bool
  pub severity : ℕ
  pub severity_file_path : Option ℕ

-- `malc_dst`: which of the functions the table has, what `init` returns if there is one, and the
-- bytes of the instance.
pub record Dst : Type 0 where
  pub size_of : ℕ
  pub init : Option (Result (Unit {0}))
  pub has_terminate : Bool
  pub has_flush : Bool
  pub has_idle_task : Bool
  pub has_write : Bool

pub record Destination : Type 0 where
  pub dst : Dst
  pub cfg : DstCfg

pub record PastEntry : Type 0 where
  pub entry_id : ℕ
  pub tprev : ℕ

-- `malc_log_strings`, each text with its length.
pub record LogStrings : Type 0 where
  pub timestamp : List ℕ
  pub sev : List ℕ
  pub text : List ℕ

-- A call of a destination's function.
pub data Call : Type 0 where
  flush_call : ℕ → Call
  terminate_call : ℕ → Call
  idle_call : ℕ → Call
  write_call : ℕ → ℕ → ℕ → LogStrings → Call

-- `malc_security`, without `sanitize_log_entries`.
pub record Security : Type 0 where
  pub log_rate_filter_watch_count : ℕ
  pub log_rate_filter_min_severity : ℕ

-- `destinations_add`'s settings of a destination.
unfoldable pub default_cfg : DstCfg
default_cfg = record {
  log_rate_filter_time_ns = 0;
  show_timestamp = true;
  show_severity = true;
  severity = sev_warning;
  severity_file_path = none;
}

-- `get_entry_strings`
unfoldable pub get_entry_strings : Destination → LogStrings → LogStrings
get_entry_strings d strs = record {
  timestamp = (if d.cfg.show_timestamp then strs.timestamp else []);
  sev = (if d.cfg.show_severity then strs.sev else []);
  text = strs.text;
}

-- The names that a severity file may hold.
pub data SevName : Type 0 where
  debug trace note warning error critical : SevName

-- `update_severity_from_file`: `read` opens and reads a file, without what it holds when `ferror`
-- is set, and `lit_is` says that `bl_lit_strcmp` finds that name in it.
unfoldable pub update_severity_from_file :
    (ℕ → Option (List ℕ)) → (List ℕ → SevName → Bool) → ℕ → DstCfg → DstCfg
update_severity_from_file read lit_is path c = elim (read path) [
  | none ↦ c
  | some buff ↦
      if lit_is buff SevName.debug
      then record c { severity = sev_debug }
      else if lit_is buff SevName.trace
      then record c { severity = sev_trace }
      else if lit_is buff SevName.note
      then record c { severity = sev_note }
      else if lit_is buff SevName.warning
      then record c { severity = sev_warning }
      else if lit_is buff SevName.error
      then record c { severity = sev_error }
      else if lit_is buff SevName.critical
      then record c { severity = sev_critical }
      else c
]

-- ===== src/Tests/Files.antt =====
-- Runs of the destination of src/malc/destinations/file.c.
use mini_async_log_c.Common.{
  ℕ, ◌+◌, ◌≤◌, ◌≡◌, refl, max, true, false, none, some, [], ◌∷◌, length, if◌then◌else◌, ◌==◌, ok,
  some, arith,
}
use mini_async_log_c.Destinations.Types.{LogStrings}
use mini_async_log_c.EntryParser.Types.{lit}
use mini_async_log_c.EntryParser.Entry.{decimal}
use mini_async_log_c.FileDst.{
  FileSystem, FileDst, FileCfg, Files, file_dst_init, file_set_cfg, file_fwrite, rotate, file_write,
  open_new_file, find_name, open_named,
}
use mini_async_log_c.FileDst.Limit.{started, configured, wrote, Reach-Within}
use mini_async_log_c.FileDst.Unread.{file_write-unread}

-- A disk on which texts of three bytes cannot be written. The world counts the operations.
abbrev disk : FileSystem
disk = record {
  World = ℕ;
  fopen_read = λ name w. (w + 1, some 2);
  fopen_write = λ name w. (w + 1, none);
  fclose = λ w. w + 1;
  fwrite = λ t w. (w + 1, (if length t == 3 then 0 else length t, 5));
  fflush = λ w. (w + 1, none);
  remove = λ name w. w + 1;
}

abbrev texts : LogStrings
texts = record { timestamp = lit "1."; sev = lit "[note_]"; text = lit "abc" }

abbrev opened : FileDst
opened = record {
  is_open = true;
  time_based_name = true;
  can_remove_old_data_on_full_disk = false;
  name_seq_num = 0;
  prefix = [];
  suffix = [];
  file_size = 0;
  max_file_size = 0;
  max_log_files = 0;
  files = lit "a" ∷ [];
  has_ring = true;
}

abbrev written : ℕ → FileDst
written n = record opened { file_size = n }

file_write-unread_example :
    file_write disk 5 none [] texts (opened, 0) ≡ some ((written 10, 4), ok tt)
file_write-unread_example =
    file_write-unread disk 5 none [] texts opened 0 1 2 3 4 0 5 5 5 5 refl refl refl refl refl
      (omega arith) (λ e. omega arith) refl

abbrev settings : FileCfg
settings = record {
  prefix = lit "log";
  suffix = [];
  time_based_name = false;
  can_remove_old_data_on_full_disk = true;
  max_file_size = 100;
  max_log_files = 3;
}

-- The files after the settings, and after an entry whose texts can be written.
abbrev configured_file : FileDst
configured_file = record file_dst_init {
  prefix = lit "log";
  suffix = [];
  time_based_name = false;
  can_remove_old_data_on_full_disk = true;
  max_file_size = 100;
  max_log_files = 3;
}

is_configured : file_set_cfg none none none settings file_dst_init ≡ some (configured_file, ok tt)
unfolding file_set_cfg file_dst_init
is_configured = refl

abbrev short_texts : LogStrings
short_texts = record { timestamp = lit "1."; sev = lit "[note_]"; text = lit "abcd" }

abbrev written_files : Files disk
written_files = (
  record configured_file {
    is_open = true;
    name_seq_num = 1;
    file_size = 14;
    files = lit "log_0" ∷ [];
  },
  6,
)

is_written :
    file_write disk 5 none [] short_texts (configured_file, 0) ≡ some (written_files, ok tt)
unfolding file_write rotate open_new_file find_name open_named file_fwrite decimal file_dst_init
is_written = refl

Reach-Within_example : length written_files.0.files ≤ max 1 written_files.0.max_log_files
Reach-Within_example = Reach-Within disk written_files (
    wrote (configured_file, 0) written_files (ok tt) 5 none [] short_texts
      (configured (file_dst_init, 0) configured_file (ok tt) none none none settings (started 0)
        is_configured)
      is_written)

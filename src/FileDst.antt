-- ===== src/FileDst.antt =====
-- src/malc/destinations/file.c: a destination that writes to files and rotates them.
pub mod Rotation
pub mod Limit
pub mod Unread
use mini_async_log_c.Common.{
  ℕ, zero, suc, ◌+◌, Bool, true, false, not, ◌&&◌, ◌||◌, Option, none, some, List, [], ◌∷◌, ◌++◌,
  if◌then◌else◌, ltb, leb, ◌==◌, length, Result, ok, err, BlErr, error, file, preconditions,
}
use mini_async_log_c.Destinations.Types.{LogStrings}
use mini_async_log_c.EntryParser.Types.{lit}
use mini_async_log_c.EntryParser.Entry.{decimal}

-- The C library's files, of which the destination has at most one open at a time. An operation that
-- fails gives its `errno`; `fwrite` gives the bytes written and `errno`.
pub record FileSystem : Type 1 where
  pub World : Type 0
  pub fopen_read : List ℕ → World → World × Option ℕ
  pub fopen_write : List ℕ → World → World × Option ℕ
  pub fclose : World → World
  pub fwrite : List ℕ → World → World × (ℕ × ℕ)
  pub fflush : World → World × Option ℕ
  pub remove : List ℕ → World → World

-- `struct malc_file_dst`. `files` is the ring of the names of past files, from its head, and `has_ring`
-- says whether it is there: to use a ring that is destroyed is a fault.
pub record FileDst : Type 0 where
  pub is_open : Bool
  pub time_based_name : Bool
  pub can_remove_old_data_on_full_disk : Bool
  pub name_seq_num : ℕ
  pub prefix : List ℕ
  pub suffix : List ℕ
  pub file_size : ℕ
  pub max_file_size : ℕ
  pub max_log_files : ℕ
  pub files : List (List ℕ)
  pub has_ring : Bool

-- `malc_file_cfg`
pub record FileCfg : Type 0 where
  pub prefix : List ℕ
  pub suffix : List ℕ
  pub time_based_name : Bool
  pub can_remove_old_data_on_full_disk : Bool
  pub max_file_size : ℕ
  pub max_log_files : ℕ

abbrev pub enoent : ℕ
enoent = 2

abbrev pub enospc : ℕ
enospc = 28

abbrev pub enospc_errstr : List ℕ
enospc_errstr = lit "<corrupted: ENOSPC>" ++ (10 ∷ [])

-- `malc_file_dst_init` when its calls succeed.
unfoldable pub file_dst_init : FileDst
file_dst_init = record {
  is_open = false;
  time_based_name = true;
  can_remove_old_data_on_full_disk = false;
  name_seq_num = 0;
  prefix = [];
  suffix = lit ".log";
  file_size = 0;
  max_file_size = 0;
  max_log_files = 0;
  files = [];
  has_ring = true;
}

-- `malc_file_set_cfg`, from the errors of the two strings and of the ring. The ring is destroyed first and
-- made last, so an error of these leaves none. `none` is the fault of a ring that is not there.
unfoldable pub file_set_cfg :
    Option BlErr
    → Option BlErr
    → Option BlErr
    → FileCfg
    → FileDst
    → Option (FileDst × Result (Unit {0}))
file_set_cfg prefix_error suffix_error ring_error cfg d =
    let d' = record d {
      max_file_size = cfg.max_file_size;
      max_log_files = if cfg.max_file_size == 0 then 0 else cfg.max_log_files;
      time_based_name = cfg.time_based_name;
      can_remove_old_data_on_full_disk = cfg.can_remove_old_data_on_full_disk;
      has_ring = false;
    } in
    if not d.has_ring
    then none
    else if not (length d.files == 0)
    then some (d, err preconditions)
    else (elim prefix_error [
      | some e ↦ some (d', err e)
      | none ↦ elim suffix_error [
        | some e ↦ some (record d' { prefix = cfg.prefix }, err e)
        | none ↦ elim ring_error [
          | some e ↦ some (record d' { prefix = cfg.prefix; suffix = cfg.suffix }, err e)
          | none ↦
              some (record d' { prefix = cfg.prefix; suffix = cfg.suffix; has_ring = true }, ok tt)
        ]
      ]
    ])

-- `malc_file_get_cfg`
unfoldable pub file_get_cfg : FileDst → FileCfg
file_get_cfg d = record {
  prefix = d.prefix;
  suffix = d.suffix;
  time_based_name = d.time_based_name;
  can_remove_old_data_on_full_disk = d.can_remove_old_data_on_full_disk;
  max_file_size = d.max_file_size;
  max_log_files = d.max_log_files;
}

module _ (fs : FileSystem) where
  -- The destination with the rest of the world, and what a function of it gives: `none` where it does
  -- not return, writes to no file, or uses a ring that is not there.
  abbrev pub Files : Type 0
  Files = FileDst × fs.World

  abbrev pub Outcome : Type 0
  Outcome = Option (Files × Result (Unit {0}))

  abbrev pub next : Outcome → (Files → Outcome) → Outcome
  next none f = none
  next (some (s, ok u)) f = f s
  next (some (s, err e)) f = some (s, err e)

  -- `malc_file_dst_drop_last_file`
  unfoldable pub drop_last_file : Bool → Files → Files
  drop_last_file do_remove (d, w) = elim d.files [
    | [] ↦ (d, w)
    | name ∷ files ↦ (record d { files = files }, if do_remove then fs.remove name w else w)
  ]

  abbrev pub close_file : Files → Files
  close_file (d, w) = (record d { is_open = false; file_size = 0 }, fs.fclose w)

  -- The loop for a name that no file has, on fuel: the name and the last `errno`.
  unfoldable pub find_name : ℕ → Files → Option (Files × (List ℕ × ℕ))
  unfolding decimal
  find_name zero (d, w) = none
  find_name (suc fuel) (d, w) =
      let name = d.prefix ++ (b'_' ∷ decimal 20 1 d.name_seq_num d.suffix) in
      let d' = record d { name_seq_num = d.name_seq_num + 1 } in
      let (w', r) = fs.fopen_read name w in
      let rest = find_name fuel (d', fs.fclose w') in
      elim r [ none ↦ rest | some errno ↦ some ((d', w'), (name, errno)) ]

  -- The opening of a file by its name.
  unfoldable pub open_named : List ℕ → Files → Outcome
  open_named name (d, w) =
      let (w', r) = fs.fopen_write name w in
      elim r [
        | some errno ↦ some ((d, w'), err file)
        | none ↦
            if d.has_ring
            then some ((record d { is_open = true; files = d.files ++ (name ∷ []) }, w'), ok tt)
            else none
      ]

  -- `malc_file_dst_open_new_file`, from the error of the name's capacity and the times as `printf`
  -- prints them.
  unfoldable pub open_new_file : ℕ → Option BlErr → List ℕ → Files → Outcome
  unfolding find_name open_named
  open_new_file fuel (some e) times s = some (s, err e)
  open_new_file fuel none times (d, w) =
      if d.time_based_name
      then open_named (d.prefix ++ (times ++ d.suffix)) (d, w)
      else (elim (find_name fuel (d, w)) [
        | none ↦ none
        | some r ↦ if r.1.1 == enoent then open_named r.1.0 r.0 else some (r.0, err file)
      ])

  -- The mark behind a text that was cut.
  unfoldable pub mark_corrupted : Files → Outcome
  mark_corrupted (d, w) =
      let (w', written) = fs.fwrite enospc_errstr w in
      let s : Files = (record d { file_size = d.file_size + written.0 }, w') in
      if written.0 == length enospc_errstr then some (s, ok tt) else some (s, err error)

  -- What a full disk makes of the files: the open one goes for a new one, or the oldest goes and the
  -- open one gets the mark.
  unfoldable pub make_room : ℕ → Option BlErr → List ℕ → Files → Outcome
  unfolding open_new_file drop_last_file mark_corrupted
  make_room fuel room times (d, w) =
      if length d.files == 1
      then open_new_file fuel room times (drop_last_file true (close_file (d, w)))
      else if length d.files == 0
      then some ((d, w), ok tt)
      else mark_corrupted (drop_last_file true (d, w))

  -- `malc_fwrite`, from the number of tries that are left.
  unfoldable pub file_fwrite : ℕ → ℕ → Option BlErr → List ℕ → List ℕ → Files → Outcome
  unfolding make_room
  file_fwrite zero fuel room times s (d, w) = some ((d, w), err error)
  file_fwrite (suc tries) fuel room times s (d, w) =
      let (w', written) = fs.fwrite s w in
      let d' = record d { file_size = d.file_size + written.0 } in
      if not d.is_open
      then none
      else if written.0 == length s
      then some ((d', w'), ok tt)
      else if written.1 == enospc && d.can_remove_old_data_on_full_disk
      then next (make_room fuel room times (d', w')) (file_fwrite tries fuel room times s)
      else some ((d', w'), err error)

  abbrev pub max_retries : ℕ
  max_retries = 2

  -- The rotation at the start of `malc_file_dst_write`: the open file is closed, and the oldest goes.
  abbrev pub close_open_file : Files → Files
  close_open_file (d, w) = if d.is_open then close_file (d, w) else (d, w)

  unfoldable pub limit_files : Files → Files
  unfolding drop_last_file
  limit_files (d, w) =
      if d.max_log_files == 0
      then drop_last_file false (d, w)
      else if leb d.max_log_files (length d.files)
      then drop_last_file true (d, w)
      else (d, w)

  -- Whether a line leaves the file below its limit.
  abbrev pub is_below : ℕ → FileDst → Bool
  is_below bytes d = d.max_file_size == 0 || ltb (d.file_size + bytes) d.max_file_size

  unfoldable pub rotate : ℕ → Files → Files
  unfolding limit_files
  rotate bytes (d, w) = if is_below bytes d then (d, w) else limit_files (close_open_file (d, w))

  -- An outcome whose error is not read.
  abbrev pub unread : Outcome → (Files → Outcome) → Outcome
  unread none f = none
  unread (some (s, r)) f = f s

  -- `malc_file_dst_write`. The error of the text's `malc_fwrite` is not read: the variable that is
  -- tested behind it is the severity's.
  unfoldable pub file_write : ℕ → Option BlErr → List ℕ → LogStrings → Files → Outcome
  unfolding rotate open_new_file file_fwrite
  file_write fuel room times strs s =
      let bytes = length strs.timestamp + length strs.sev + length strs.text + 1 in
      let put : List ℕ → Files → Outcome = file_fwrite max_retries fuel room times in
      let rotated = rotate bytes s in
      if not (is_below bytes s.0 || s.0.has_ring)
      then none
      else next
          (if rotated.0.is_open
            then some (rotated, ok tt)
            else open_new_file fuel room times rotated)
          (λ s.
            next (put strs.timestamp s)
              (λ s. next (put strs.sev s) (λ s. unread (put strs.text s) (put (10 ∷ [])))))

  -- `malc_file_dst_flush`
  unfoldable pub file_flush : Files → Files × Result (Unit {0})
  file_flush (d, w) =
      let (w', r) = fs.fflush w in
      if d.is_open
      then (elim r [ none ↦ ((d, w'), ok tt) | some e ↦ ((d, w'), err error) ])
      else ((d, w), ok tt)

  -- `malc_file_dst_terminate`
  unfoldable pub file_terminate : Files → Option Files
  file_terminate (d, w) =
      if d.has_ring
      then some (
        record d { is_open = false; files = []; prefix = []; suffix = []; has_ring = false },
        if d.is_open then fs.fclose w else w,
      )
      else none

-- ===== src/FileDst/Rotation.antt =====
-- What the steps of `malc_file_dst_write` of src/malc/destinations/file.c do to the number of files.
use mini_async_log_c.Common.{
  ℕ, zero, suc, ◌+◌, ◌-◌, ◌≤◌, ◌≡◌, refl, ◌∙◌, max, Bool, true, false, not, ◌&&◌, ◌||◌, Bool-cases,
  inl, inr, Option, none, some, List, [], ◌∷◌, ◌++◌, if◌then◌else◌, ltb, leb, ◌==◌, ==→eq, length,
  length-append, ok, err, BlErr, file, error, arith,
}
use mini_async_log_c.EntryParser.Entry.{decimal}
use mini_async_log_c.FileDst.{
  FileSystem, FileDst, Files, Outcome, enoent, enospc, enospc_errstr, next, unread, drop_last_file,
  close_file, find_name, open_named, open_new_file, mark_corrupted, make_room, file_fwrite,
  close_open_file, limit_files, rotate,
}

-- The files, with the one that is to be opened, are within the limit; without one there is one file.
abbrev pub Within : FileDst → Type 0
Within d = length d.files + (if d.is_open then 0 else 1) ≤ max 1 d.max_log_files

module _ (fs : FileSystem) where
  abbrev pub Keeps : Outcome fs → Type 0
  Keeps none = Unit
  Keeps (some (s, r)) = Within s.0

  pub next-Keeps :
      (m : Outcome fs) (f : Files fs → Outcome fs)
      → Keeps m
      → ((s : Files fs) → Within s.0 → Keeps (f s))
      → Keeps (next fs m f)
  next-Keeps none f h k = tt
  next-Keeps (some (s, ok u)) f h k = k s h
  next-Keeps (some (s, err e)) f h k = h

  pub unread-Keeps :
      (m : Outcome fs) (f : Files fs → Outcome fs)
      → Keeps m
      → ((s : Files fs) → Within s.0 → Keeps (f s))
      → Keeps (unread fs m f)
  unread-Keeps none f h k = tt
  unread-Keeps (some (s, r)) f h k = k s h

  drop_last_file-length :
      (b : Bool) (s : Files fs) → length (drop_last_file fs b s).0.files ≡ length s.0.files - 1
  unfolding drop_last_file
  drop_last_file-length b (d, w) = at d.files
    where
      at :
          (l : List (List ℕ))
          → length (drop_last_file fs b (record d { files = l }, w)).0.files ≡ length l - 1
      at [] = refl
      at (x ∷ l) = omega arith

  drop_last_file-rest :
      (b : Bool) (s : Files fs)
      → ((drop_last_file fs b s).0.is_open ≡ s.0.is_open)
        × ((drop_last_file fs b s).0.max_log_files ≡ s.0.max_log_files)
  unfolding drop_last_file
  drop_last_file-rest b (d, w) = at d.files
    where
      at :
          (l : List (List ℕ))
          → ((drop_last_file fs b (record d { files = l }, w)).0.is_open ≡ d.is_open)
            × ((drop_last_file fs b (record d { files = l }, w)).0.max_log_files ≡ d.max_log_files)
      at [] = (refl, refl)
      at (x ∷ l) = (refl, refl)

  dropped-Within :
      (b : Bool) (s : Files fs)
      → (length s.0.files - 1) + (if s.0.is_open then 0 else 1) ≤ max 1 s.0.max_log_files
      → Within (drop_last_file fs b s).0
  dropped-Within b s h =
      rw (drop_last_file-length b s, (drop_last_file-rest b s).0, (drop_last_file-rest b s).1) h

  open_named-Keeps :
      (name : List ℕ) (s : Files fs)
      → s.0.is_open ≡ false
      → Within s.0
      → Keeps (open_named fs name s)
  unfolding open_named
  open_named-Keeps name (d, w) c h = at (fs.fopen_write name w).1 d.has_ring
    where
      opened :
          (o : Bool)
          → o ≡ false
          → length d.files + (if o then 0 else 1) ≤ max 1 d.max_log_files
          → length (d.files ++ (name ∷ [])) + 0 ≤ max 1 d.max_log_files
      opened true c h = absurd (cc c)
      opened false c h = omega (arith, length-append d.files (name ∷ []))

      at :
          (r : Option ℕ) (has_ring : Bool)
          → Keeps (elim r [
            | some errno ↦ some ((d, (fs.fopen_write name w).0), err file)
            | none ↦
                if has_ring
                then some (
                  (
                    record d { is_open = true; files = d.files ++ (name ∷ []) },
                    (fs.fopen_write name w).0,
                  ),
                  ok tt,
                )
                else none
          ])
      at (some e) ring = h
      at none false = tt
      at none true = opened d.is_open c h

  -- A closed file, and no more files than the limit.
  abbrev Closed : FileDst → Type 0
  Closed d = (d.is_open ≡ false) × (length d.files ≤ max 1 d.max_log_files)

  limit_files-Within : (s : Files fs) → Closed s.0 → Within (limit_files fs s).0
  unfolding limit_files
  limit_files-Within (d, w) h = elim (Bool-cases (d.max_log_files == 0)) [
    | inl z ↦
        rw (limit_files, z)
          (dropped-Within false (d, w) (rw (h.0) (no_more (==→eq d.max_log_files 0 z) h.1)))
    | inr z ↦ elim (Bool-cases (leb d.max_log_files (length d.files))) [
      | inl f ↦ rw (limit_files, z, f) (dropped-Within true (d, w) (rw (h.0) (one_less z f h.1)))
      | inr f ↦ rw (limit_files, z, f, h.0) (room z f)
    ]
  ]
    where
      no_more :
          d.max_log_files ≡ 0
          → length d.files ≤ max 1 d.max_log_files
          → (length d.files - 1) + 1 ≤ max 1 d.max_log_files
      no_more z h = omega arith

      one_less :
          (d.max_log_files == 0) ≡ false
          → leb d.max_log_files (length d.files) ≡ true
          → length d.files ≤ max 1 d.max_log_files
          → (length d.files - 1) + 1 ≤ max 1 d.max_log_files
      one_less z f h = ground arith

      room :
          (d.max_log_files == 0) ≡ false
          → leb d.max_log_files (length d.files) ≡ false
          → length d.files + 1 ≤ max 1 d.max_log_files
      room z f = ground arith

  close_open_file-Closed : (s : Files fs) → Within s.0 → Closed (close_open_file fs s).0
  close_open_file-Closed (d, w) h = elim (Bool-cases d.is_open) [
    | inl o ↦ rw (close_open_file, o) (refl, at d.is_open h)
    | inr o ↦ rw (close_open_file, o) (refl, at d.is_open h)
  ]
    where
      at :
          (o : Bool)
          → length d.files + (if o then 0 else 1) ≤ max 1 d.max_log_files
          → length d.files ≤ max 1 d.max_log_files
      at true h = omega arith
      at false h = omega arith

  pub rotate-Within : (bytes : ℕ) (s : Files fs) → Within s.0 → Within (rotate fs bytes s).0
  unfolding rotate
  rotate-Within bytes (d, w) h =
      elim (Bool-cases (d.max_file_size == 0 || ltb (d.file_size + bytes) d.max_file_size)) [
        | inl t ↦ rw (rotate, t) h
        | inr t ↦
            rw (rotate, t)
              (limit_files-Within (close_open_file fs (d, w)) (close_open_file-Closed (d, w) h))
      ]

  -- The search for a name leaves the files as they are.
  abbrev SameFiles : FileDst → Option (Files fs × (List ℕ × ℕ)) → Type 0
  SameFiles d none = Unit
  SameFiles d (some r) =
      (r.0.0.is_open ≡ d.is_open)
      × ((r.0.0.files ≡ d.files) × (r.0.0.max_log_files ≡ d.max_log_files))

  find_name-SameFiles : (fuel : ℕ) (s : Files fs) → SameFiles s.0 (find_name fs fuel s)
  unfolding find_name
  find_name-SameFiles zero (d, w) = tt
  find_name-SameFiles (suc fuel) (d, w) =
      at _ (fs.fopen_read name w).0 (fs.fopen_read name w).1
        (find_name-SameFiles fuel (d', fs.fclose (fs.fopen_read name w).0))
    where
      name : List ℕ
      name = d.prefix ++ (b'_' ∷ decimal 20 1 d.name_seq_num d.suffix)

      d' : FileDst
      d' = record d { name_seq_num = d.name_seq_num + 1 }

      at :
          (rest : Option (Files fs × (List ℕ × ℕ))) (w' : fs.World) (r : Option ℕ)
          → SameFiles d' rest
          → SameFiles d (elim r [ none ↦ rest | some errno ↦ some ((d', w'), (name, errno)) ])
      at rest w' none h = h
      at rest w' (some e) h = (refl, (refl, refl))

  pub if-Keeps : (b : Bool) (x y : Outcome fs) → Keeps x → Keeps y → Keeps (if b then x else y)
  if-Keeps true x y h k = h
  if-Keeps false x y h k = k

  pub open_new_file-Keeps :
      (fuel : ℕ) (room : Option BlErr) (times : List ℕ) (s : Files fs)
      → s.0.is_open ≡ false
      → Within s.0
      → Keeps (open_new_file fs fuel room times s)
  unfolding open_new_file
  open_new_file-Keeps fuel (some e) times s c h = h
  open_new_file-Keeps fuel none times (d, w) c h =
      if-Keeps d.time_based_name _ _ (open_named-Keeps _ (d, w) c h)
        (at (find_name fs fuel (d, w)) (find_name-SameFiles fuel (d, w)))
    where
      at :
          (m : Option (Files fs × (List ℕ × ℕ)))
          → SameFiles d m
          → Keeps (elim m [
            | none ↦ none
            | some r ↦ if r.1.1 == enoent then open_named fs r.1.0 r.0 else some (r.0, err file)
          ])
      at none k = tt
      at (some r) k =
          if-Keeps (r.1.1 == enoent) _ _
            (open_named-Keeps r.1.0 r.0 (k.0 ∙ c) (rw (k.0, k.1.0, k.1.1) h))
            (rw (k.0, k.1.0, k.1.1) h)

  mark_corrupted-Keeps : (s : Files fs) → Within s.0 → Keeps (mark_corrupted fs s)
  unfolding mark_corrupted
  mark_corrupted-Keeps (d, w) h =
      if-Keeps ((fs.fwrite enospc_errstr w).1.0 == length enospc_errstr) (some (s', ok tt))
        (some (s', err error)) h h
    where
      s' : Files fs
      s' = (
        record d { file_size = d.file_size + (fs.fwrite enospc_errstr w).1.0 },
        (fs.fwrite enospc_errstr w).0,
      )

  make_room-Keeps :
      (fuel : ℕ) (room : Option BlErr) (times : List ℕ) (s : Files fs)
      → Within s.0
      → Keeps (make_room fs fuel room times s)
  unfolding make_room
  make_room-Keeps fuel room times (d, w) h = elim (Bool-cases (length d.files == 1)) [
    | inl one ↦
        rw (make_room, one)
          (open_new_file-Keeps fuel room times (drop_last_file fs true (close_file fs (d, w)))
            (drop_last_file-rest true (close_file fs (d, w))).0
            (dropped-Within true (close_file fs (d, w)) (replaced (==→eq (length d.files) 1 one))))
    | inr one ↦
        rw (make_room, one)
          (if-Keeps (length d.files == 0) _ _ h (
            mark_corrupted-Keeps (drop_last_file fs true (d, w))
              (dropped-Within true (d, w) (fewer h))))
  ]
    where
      replaced : length d.files ≡ 1 → (length d.files - 1) + 1 ≤ max 1 d.max_log_files
      replaced e = omega arith

      fewer : Within d → (length d.files - 1) + (if d.is_open then 0 else 1) ≤ max 1 d.max_log_files
      fewer h = omega arith

  pub file_fwrite-Keeps :
      (tries fuel : ℕ) (room : Option BlErr) (times t : List ℕ) (s : Files fs)
      → Within s.0
      → Keeps (file_fwrite fs tries fuel room times t s)
  unfolding file_fwrite
  file_fwrite-Keeps zero fuel room times t (d, w) h = h
  file_fwrite-Keeps (suc tries) fuel room times t (d, w) h = if-Keeps (not d.is_open) _ _ tt (
      if-Keeps ((fs.fwrite t w).1.0 == length t) _ _ h (
        if-Keeps ((fs.fwrite t w).1.1 == enospc && d.can_remove_old_data_on_full_disk) _ _
          (next-Keeps _ (file_fwrite fs tries fuel room times t)
            (make_room-Keeps fuel room times _ h) (file_fwrite-Keeps tries fuel room times t))
          h))

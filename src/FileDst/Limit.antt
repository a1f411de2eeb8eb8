-- ===== src/FileDst/Limit.antt =====
-- The number of files that src/malc/destinations/file.c keeps.
use mathlib.Core.Path.{subst}
use mini_async_log_c.Common.{
  ℕ, ◌+◌, ◌≤◌, ◌≡◌, refl, max, Bool, true, false, Option, none, some, List, [], ◌∷◌, if◌then◌else◌,
  ◌==◌, length, Result, ok, BlErr, arith,
}
use mini_async_log_c.Destinations.Types.{LogStrings}
use mini_async_log_c.FileDst.{
  FileSystem, FileDst, FileCfg, Files, Outcome, open_new_file, file_fwrite, rotate, file_write,
  file_dst_init, file_set_cfg,
}
use mini_async_log_c.FileDst.Rotation.{
  Within, Keeps, next-Keeps, unread-Keeps, if-Keeps, rotate-Within, open_new_file-Keeps,
  file_fwrite-Keeps,
}

module _ (fs : FileSystem) where
  unless-Keeps :
      (b : Bool) (x y : Outcome fs)
      → Keeps fs x
      → (b ≡ false → Keeps fs y)
      → Keeps fs (if b then x else y)
  unless-Keeps true x y h k = h
  unless-Keeps false x y h k = k refl

  file_write-Keeps :
      (fuel : ℕ) (room : Option BlErr) (times : List ℕ) (strs : LogStrings) (s : Files fs)
      → Within s.0
      → Keeps fs (file_write fs fuel room times strs s)
  unfolding file_write
  file_write-Keeps fuel room times strs s h = if-Keeps fs _ none _ tt (
      next-Keeps fs _ _ (opened (rotate fs _ s) (rotate-Within fs _ s h)) (λ s h.
        next-Keeps fs _ _ (put strs.timestamp s h) (λ s h.
          next-Keeps fs _ _ (put strs.sev s h)
            (λ s h. unread-Keeps fs _ _ (put strs.text s h) (put (10 ∷ []))))))
    where
      put :
          (t : List ℕ) (s : Files fs) → Within s.0 → Keeps fs (file_fwrite fs 2 fuel room times t s)
      put = file_fwrite-Keeps fs 2 fuel room times

      opened :
          (s : Files fs)
          → Within s.0
          → Keeps fs (if s.0.is_open then some (s, ok tt) else open_new_file fs fuel room times s)
      opened s h =
          unless-Keeps s.0.is_open _ _ h (λ o. open_new_file-Keeps fs fuel room times s o h)

  abbrev KeepsDst : Option (FileDst × Result (Unit {0})) → Type 0
  KeepsDst none = Unit
  KeepsDst (some (d, r)) = Within d

  file_set_cfg-KeepsDst :
      (p x r : Option BlErr) (cfg : FileCfg) (d : FileDst)
      → Within d
      → KeepsDst (file_set_cfg p x r cfg d)
  unfolding file_set_cfg
  file_set_cfg-KeepsDst p x r cfg d h = at (length d.files == 0) d.has_ring refl refl p x r
    where
      none_left :
          (length d.files == 0) ≡ true
          → (n : ℕ) → length d.files + (if d.is_open then 0 else 1) ≤ max 1 n
      none_left e n = ground arith

      at :
          (b ring : Bool)
          → (length d.files == 0) ≡ b
          → d.has_ring ≡ ring
          → (p x r : Option BlErr) → KeepsDst (file_set_cfg p x r cfg d)
      at b false e g p x r = rw (file_set_cfg, g) tt
      at false true e g p x r = rw (file_set_cfg, g, e) h
      at true true e g (some p) x r = rw (file_set_cfg, g, e) (none_left e _)
      at true true e g none (some x) r = rw (file_set_cfg, g, e) (none_left e _)
      at true true e g none none (some r) = rw (file_set_cfg, g, e) (none_left e _)
      at true true e g none none none = rw (file_set_cfg, g, e) (none_left e _)

  -- What settings and writes lead to from `malc_file_dst_init`.
  pub data Reach : Files fs → Type 0 where
    started : (w : fs.World) → Reach (file_dst_init, w)
    configured :
        (s : Files fs) (d : FileDst) (result : Result (Unit {0})) (p x r : Option BlErr)
        (cfg : FileCfg)
        → Reach s
        → file_set_cfg p x r cfg s.0 ≡ some (d, result)
        → Reach (d, s.1)
    wrote :
        (s t : Files fs) (r : Result (Unit {0})) (fuel : ℕ) (room : Option BlErr) (times : List ℕ)
        (strs : LogStrings)
        → Reach s
        → file_write fs fuel room times strs s ≡ some (t, r)
        → Reach t

  -- A destination never keeps the names of more files than `max_log_files`, or than one where there is no
  -- such limit, whatever the files do and whatever its writes and settings return, as long as none of
  -- them uses a ring that a failed setting has destroyed.
  pub Reach-Within : (s : Files fs) → Reach s → length s.0.files ≤ max 1 s.0.max_log_files
  unfolding file_dst_init
  Reach-Within s r = omega (arith, within s r)
    where
      within : (s : Files fs) → Reach s → Within s.0
      within _ (started w) = omega arith
      within _ (configured s d t p x e cfg r c) =
          subst KeepsDst c (file_set_cfg-KeepsDst p x e cfg s.0 (within s r))
      within _ (wrote s t e fuel room times strs r w) =
          subst (Keeps fs) w (file_write-Keeps fuel room times strs s (within s r))

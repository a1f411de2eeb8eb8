-- ===== src/FileDst/Unread.antt =====
-- The error of a text in `malc_file_dst_write` of src/malc/destinations/file.c.
use mini_async_log_c.Common.{
  ℕ, ◌+◌, ◌<◌, ◌≡◌, ◌≢◌, refl, true, ◌||◌, Option, some, if◌then◌else◌, List, [], ◌∷◌, length, ltb,
  ◌==◌, ==_refl, ==_ne, ok, err, error, BlErr, arith,
}
use mini_async_log_c.Destinations.Types.{LogStrings}
use mini_async_log_c.FileDst.{
  FileSystem, FileDst, enospc, file_fwrite, rotate, file_write, open_new_file,
}

module _ (fs : FileSystem) (fuel : ℕ) (room : Option BlErr) (times : List ℕ)
    (strs : LogStrings) where
  -- The destination with so many bytes more in its file.
  abbrev pub grown : ℕ → FileDst → FileDst
  grown n d = record d { file_size = d.file_size + n }

  file_fwrite-whole :
      (t : List ℕ) (d : FileDst) (w w' : fs.World) (e : ℕ)
      → d.is_open ≡ true
      → fs.fwrite t w ≡ (w', (length t, e))
      → file_fwrite fs 2 fuel room times t (d, w) ≡ some ((grown (length t) d, w'), ok tt)
  unfolding file_fwrite
  file_fwrite-whole t d w w' e o f = rw (file_fwrite, o, f, ==_refl (length t)) refl

  file_fwrite-part :
      (t : List ℕ) (d : FileDst) (w w' : fs.World) (n e : ℕ)
      → d.is_open ≡ true
      → n ≢ length t
      → e ≢ enospc
      → fs.fwrite t w ≡ (w', (n, e))
      → file_fwrite fs 2 fuel room times t (d, w) ≡ some ((grown n d, w'), err error)
  unfolding file_fwrite
  file_fwrite-part t d w w' n e o short other f =
      rw (file_fwrite, o, f, ==_ne short, ==_ne other) refl

  -- An open file, and an entry that does not reach the file's limit: when `fwrite` writes the timestamp
  -- and the severity, only a part of the text or nothing of it, for another reason than a full disk,
  -- and the end of the line, then the write reports success, though the file has grown by less than
  -- the line.
  pub file_write-unread :
      (d : FileDst) (w w1 w2 w3 w4 : fs.World) (n e1 e2 e3 e4 : ℕ)
      → d.is_open ≡ true
      → (d.max_file_size == 0
          || ltb
              (d.file_size + (length strs.timestamp + length strs.sev + length strs.text + 1))
              d.max_file_size)
        ≡ true
      → fs.fwrite strs.timestamp w ≡ (w1, (length strs.timestamp, e1))
      → fs.fwrite strs.sev w1 ≡ (w2, (length strs.sev, e2))
      → fs.fwrite strs.text w2 ≡ (w3, (n, e3))
      → n < length strs.text
      → e3 ≢ enospc
      → fs.fwrite (10 ∷ []) w3 ≡ (w4, (1, e4))
      → file_write fs fuel room times strs (d, w)
        ≡ some (
          (
            record d { file_size = d.file_size + length strs.timestamp + length strs.sev + n + 1 },
            w4,
          ),
          ok tt,
        )
  unfolding file_write rotate
  file_write-unread d w w1 w2 w3 w4 n e1 e2 e3 e4 o below ts sev text short other end =
      rw
        (
          file_write,
          below,
          is_there,
          file_fwrite-whole strs.timestamp d w w1 e1 o ts,
          file_fwrite-whole strs.sev d1 w1 w2 e2 o sev,
          file_fwrite-part strs.text d2 w2 w3 n e3 o (omega (arith, short)) other text,
          file_fwrite-whole (10 ∷ []) (grown n d2) w3 w4 e4 o end,
        )
        refl
    where
      is_there :
          (if d.is_open then some ((d, w), ok tt) else open_new_file fs fuel room times (d, w))
          ≡ some ((d, w), ok tt)
      is_there = rw o refl

      d1 : FileDst
      d1 = grown (length strs.timestamp) d

      d2 : FileDst
      d2 = grown (length strs.sev) d1

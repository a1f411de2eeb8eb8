-- ===== src/StdOutErr.antt =====
-- src/malc/destinations/stdouterr.c: a destination that writes to the standard streams.
use mini_async_log_c.Common.{
  ℕ, ◌≡◌, Bool, true, false, not, ◌&&◌, ◌||◌, List, [], ◌∷◌, ◌++◌, if◌then◌else◌, ltb, ◌==◌, Result,
  ok, err, invalid, arith,
}
use mini_async_log_c.Destinations.Types.{LogStrings, sev_debug, sev_error, is_valid_severity}

abbrev pub sev_off : ℕ
sev_off = 57

pub data Stream : Type 0 where
  stdout stderr : Stream

-- `malc_stdouterr_dst`
pub record StdOutErr : Type 0 where
  pub stderr_sev : ℕ

-- `malc_stdouterr_dst_init`
unfoldable pub stdouterr_init : StdOutErr
stdouterr_init = record { stderr_sev = sev_error }

-- `malc_stdouterr_dst_write`: the texts, each with its stream, whose errors are not read.
abbrev pub stream_of : ℕ → StdOutErr → Stream
stream_of sev d = if ltb sev d.stderr_sev then stdout else stderr

unfoldable pub stdouterr_write : ℕ → LogStrings → StdOutErr → List (Stream × List ℕ)
stdouterr_write sev strs d =
    let dst = stream_of sev d in
    (dst, strs.timestamp) ∷ (dst, strs.sev) ∷ (dst, strs.text) ∷ (dst, 10 ∷ []) ∷ []

-- `malc_stdouterr_dst_flush`: the streams that it flushes.
unfoldable pub stdouterr_flush : StdOutErr → List Stream
stdouterr_flush d =
    (if d.stderr_sev == sev_debug then [] else stdout ∷ [])
    ++ (if d.stderr_sev == sev_off then [] else stderr ∷ [])

-- `malc_stdouterr_set_stderr_severity`
unfoldable pub set_stderr_severity : ℕ → StdOutErr → StdOutErr × Result (Unit {0})
unfolding is_valid_severity
set_stderr_severity sev d =
    if not (is_valid_severity sev) && not (sev == sev_off)
    then (d, err invalid)
    else (record { stderr_sev = sev }, ok tt)

abbrev pub is_stdout : Stream → Bool
is_stdout stdout = true
is_stdout stderr = false

abbrev pub flushes : Stream → List Stream → Bool
flushes s [] = false
flushes stdout (x ∷ xs) = is_stdout x || flushes stdout xs
flushes stderr (x ∷ xs) = not (is_stdout x) || flushes stderr xs

-- A flush reaches the stream that an entry of any valid severity is written to, whatever severity the
-- destination accepts for its second stream.
pub stdouterr_flush-reaches :
    (sev level : ℕ) (d : StdOutErr)
    → is_valid_severity sev ≡ true
    → (set_stderr_severity level d).1 ≡ ok tt
    → flushes
        (stream_of sev (set_stderr_severity level d).0)
        (stdouterr_flush (set_stderr_severity level d).0)
      ≡ true
unfolding set_stderr_severity stdouterr_flush is_valid_severity
stdouterr_flush-reaches sev level d v h = ground arith

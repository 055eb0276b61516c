-- ===== src/StartupError/Overflow.antt =====
-- The guard of `logStartupError` against the buffer that it protects.
use frewozet.Base.{
  ℕ, ◌+◌, ◌≤◌, ◌<◌, ◌≡◌, some, List, [], ◌∷◌, ◌++◌, length, length-append, arith, ge→ltb,
}
use frewozet.StartupError.{buffer_size, log_startup_error}

length_logged :
    (description log : List ℕ)
    → length log + length description ≤ buffer_size
    → length (log_startup_error (some description) log) ≡ length log + length description + 1
unfolding log_startup_error
length_logged description log h = rw (ge→ltb buffer_size (length log + length description) h) (
    omega
      (arith, length-append {0} (log ++ description) (10 ∷ []), length-append {0} log description))

-- With its terminating NUL the log fits the buffer, if the log and the description together stay
-- at least two bytes below its size.
pub log_startup_error-fits :
    (description log : List ℕ)
    → length log + length description + 2 ≤ buffer_size
    → length (log_startup_error (some description) log) + 1 ≤ buffer_size
log_startup_error-fits description log h =
    omega (arith, length_logged description log (omega arith))

-- The guard admits a log and a description that fill the buffer or all but one byte of it: then the
-- log with its newline and its terminating NUL is longer than the buffer.
pub log_startup_error-overruns :
    (description log : List ℕ)
    → length log + length description ≤ buffer_size
    → buffer_size < length log + length description + 2
    → buffer_size < length (log_startup_error (some description) log) + 1
log_startup_error-overruns description log h h' = omega (arith, length_logged description log h)

-- ===== src/StartupError/Tests.antt =====
-- A log of 500 bytes.
use frewozet.Base.{ℕ, ◌+◌, ◌<◌, ◌≡◌, refl, arith, some, List, length, replicate}
use frewozet.StartupError.{buffer_size, log_startup_error}
use frewozet.StartupError.Overflow.{log_startup_error-overruns}

abbrev log : List ℕ
log = replicate 500 65

log-length : length log ≡ 500
log-length = refl

log_startup_error-overruns_example :
    buffer_size < length (log_startup_error (some (replicate 12 66)) log) + 1
log_startup_error-overruns_example =
    log_startup_error-overruns (replicate 12 66) log (omega arith) (omega arith)

-- ===== src/StartupError.antt =====
-- startup_error.c: the log of startup errors, as the bytes before its terminating NUL.
pub mod Overflow
mod Tests
use frewozet.Base.{
  ℕ, ◌+◌, Option, none, some, List, [], ◌∷◌, ◌++◌, length, ltb, ◌==◌, if◌then◌else◌,
}
use frewozet.Base.Text.{codes}

abbrev pub buffer_size : ℕ
buffer_size = 512

-- `logStartupError`; a null description is `none`.
unfoldable pub log_startup_error : Option (List ℕ) → List ℕ → List ℕ
log_startup_error none startup_errors = startup_errors
log_startup_error (some description) startup_errors =
    if ltb buffer_size (length startup_errors + length description)
    then codes
        "FREWOZET SYSTEM ERROR: Too many errors to display.\n    Startup error log buffer overflow."
    else startup_errors ++ description ++ 10 ∷ []

-- `getStartupErrors`: null when the log is empty.
unfoldable pub get_startup_errors : List ℕ → Option (List ℕ)
get_startup_errors startup_errors =
    if ltb 0 (length startup_errors) then some startup_errors else none

-- ===== src/Logs.antt =====
-- src/services/log-rotation.service.ts: the log files of a day each. The file system is a parameter: the
-- names in the directory with the times of their last change, and which deletions fail. A stream is the path
-- that it writes to. The line's text and its time are arguments.
pub mod Names
pub mod Streams
use elektron_net_ppool.Common.{
  ℕ, zero, suc, ◌+◌, ◌*◌, ◌/◌, ◌%◌, Bool, true, false, not, ◌&&◌, Option, none, some, List, [], ◌∷◌,
  ◌++◌, map, filter, ltb, ◌==◌, if◌then◌else◌, String,
}
use elektron_net_ppool.Common.Js.{Text, codes, text_eq, is_digit}
use elektron_net_ppool.Config.{Config, positive_setting}
use elektron_net_ppool.WalletRpc.{decimal}

-- The directory, and the days that a file is kept. An empty setting is as none.
abbrev pub log_dir : Option String → Text
log_dir none = codes "./DB/logs"
log_dir (some s) = elim (codes s) [ [] ↦ codes "./DB/logs" | c ∷ rest ↦ c ∷ rest ]

abbrev pub retention_days : Config → ℕ
retention_days env = positive_setting env "LOG_RETENTION_DAYS" 7

abbrev pub number : ℕ → Text
number n = decimal (suc n) n

-- `String(n).padStart(2, '0')`
abbrev pub pad_two : Text → Text
pad_two [] = b'0' ∷ b'0' ∷ []
pad_two (a ∷ []) = b'0' ∷ a ∷ []
pad_two (a ∷ b ∷ s) = a ∷ b ∷ s

-- A day of the calendar in UTC, its month from 0.
pub record Date : Type 0 where
  pub year : ℕ
  pub month : ℕ
  pub day : ℕ

unfoldable pub today_stamp : Date → Text
today_stamp d =
    number d.year ++ b'-' ∷ pad_two (number (suc d.month)) ++ b'-' ∷ pad_two (number d.day)

abbrev pub file_name : Text → Text
file_name date = codes "pool-" ++ date ++ codes ".log"

pub record LogRotationService : Type 0 where
  pub current_date : Option Text
  pub current_stream : Option Text
  -- the streams that were opened and not ended
  pub open_streams : List Text
  -- the lines written, each with the path of its stream, newest first
  pub written : List (Text × Text)

abbrev pub new_service : LogRotationService
new_service = record { current_date = none; current_stream = none; open_streams = []; written = [] }

-- `end()`
abbrev pub end_stream : Option Text → List Text → List Text
end_stream none streams = streams
end_stream (some path) streams = filter (λ p. not (text_eq p path)) streams

unfoldable pub roll_stream : Text → LogRotationService → LogRotationService
roll_stream target s =
    let path = file_name target in
    record s {
      current_date = some target;
      current_stream = some path;
      open_streams = path ∷ end_stream s.current_stream s.open_streams;
    }

-- `currentStream != null && currentDate === today`
abbrev pub is_current : Text → Option Text → Option Text → Bool
is_current today (some path) (some date) = text_eq date today
is_current today _ _ = false

unfoldable pub ensure_stream : Text → LogRotationService → LogRotationService
unfolding roll_stream
ensure_stream today s =
    if is_current today s.current_stream s.current_date then s else roll_stream today s

abbrev pub append_line : Option Text → Text → LogRotationService → LogRotationService
append_line none line s = s
append_line (some path) line s = record s { written = (path, line) ∷ s.written }

-- A call of `console.log` and the others, at a date.
unfoldable pub write : Date → Text → LogRotationService → LogRotationService
unfolding ensure_stream today_stamp
write date line s =
    let s' = ensure_stream (today_stamp date) s in append_line s'.current_stream line s'

-- A file of the directory: its name, `mtimeMs`, and whether `statSync` and `unlinkSync` succeed on it.
pub record File : Type 0 where
  pub name : Text
  pub mtime : ℕ
  pub can_delete : Bool

abbrev pub literal : ℕ → ℕ → Bool
literal c d = d == c

-- `/^pool-\d{4}-\d{2}-\d{2}\.log$/`, a test for each character.
abbrev pub log_pattern : List (ℕ → Bool)
log_pattern =
    map literal (codes "pool-")
    ++ is_digit
      ∷ is_digit
      ∷ is_digit
      ∷ is_digit
      ∷ literal b'-'
      ∷ is_digit
      ∷ is_digit
      ∷ literal b'-'
      ∷ is_digit
      ∷ is_digit
      ∷ map literal (codes ".log")

abbrev pub matches : List (ℕ → Bool) → Text → Bool
matches [] [] = true
matches [] (c ∷ s) = false
matches (p ∷ ps) [] = false
matches (p ∷ ps) (c ∷ s) = p c && matches ps s

abbrev pub is_log_file : Text → Bool
is_log_file name = matches log_pattern name

abbrev pub day_ms : ℕ
day_ms = 24 * 60 * 60 * 1000

-- `mtimeMs < Date.now() - retentionDays * 24 * 60 * 60 * 1000`
abbrev pub is_expired : Config → (now : ℕ) → File → Bool
is_expired env now file = ltb (file.mtime + retention_days env * day_ms) now

abbrev pub is_deleted : Config → (now : ℕ) → File → Bool
is_deleted env now file = is_log_file file.name && is_expired env now file && file.can_delete

-- `none` is a directory that cannot be read.
unfoldable pub cleanup_old_logs : Config → (now : ℕ) → Option (List File) → Option (List File)
cleanup_old_logs env now none = none
cleanup_old_logs env now (some files) = some (filter (λ file. not (is_deleted env now file)) files)

unfoldable pub daily_rotate :
    Config
    → Date
    → (now : ℕ) → LogRotationService × Option (List File)
    → LogRotationService × Option (List File)
unfolding roll_stream cleanup_old_logs today_stamp
daily_rotate env date now (s, files) =
    (roll_stream (today_stamp date) s, cleanup_old_logs env now files)

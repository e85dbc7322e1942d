-- ===== src/Base/Logging/Line.antt =====
-- server/src/muduo/base/Logging.cpp and include/Logging.h: a log line from the constructor of `Logger` to its destructor.
--
-- The text of an error number is a parameter, and so are the texts of the time and of the thread's identifier, which comes with
-- `tidStringLength`. The class `T` asserts the length of that text and of the level's name; for the texts of the time see
-- `format_time`. The output function gets the buffer whole.
use dxian.Prelude.{
  ℕ, Bool, true, false, Option, none, some, List, [], ◌∷◌, ◌++◌, ◌==◌, ◌&&◌, length, if◌then◌else◌,
}
use dxian.Prelude.Int.{pos}
use dxian.Base.LogStream.{FixedBuffer, Item, integer, char, c_string, text, put_all, ◌>>=◌}
use dxian.Base.Logging.{LogLevel, trace, debug, info, warn, error, fatal}

-- What follows the last "/", as strrchr(3) finds it.
unfoldable pub after_slash : List ℕ → Option (List ℕ)
after_slash [] = none
after_slash (c ∷ cs) = elim (after_slash cs) [
  | none ↦ if c == 47 then some cs else none
  | some rest ↦ some rest
]

-- `SourceFile`.
unfoldable pub source_file : List ℕ → List ℕ
source_file filename = elim (after_slash filename) [ none ↦ filename | some rest ↦ rest ]

-- "TRACE ", "DEBUG ", "INFO  ", "WARN  ", "ERROR " and "FATAL ".
abbrev pub log_level_name : LogLevel → List ℕ
log_level_name trace = 84 ∷ 82 ∷ 65 ∷ 67 ∷ 69 ∷ 32 ∷ []
log_level_name debug = 68 ∷ 69 ∷ 66 ∷ 85 ∷ 71 ∷ 32 ∷ []
log_level_name info = 73 ∷ 78 ∷ 70 ∷ 79 ∷ 32 ∷ 32 ∷ []
log_level_name warn = 87 ∷ 65 ∷ 82 ∷ 78 ∷ 32 ∷ 32 ∷ []
log_level_name error = 69 ∷ 82 ∷ 82 ∷ 79 ∷ 82 ∷ 32 ∷ []
log_level_name fatal = 70 ∷ 65 ∷ 84 ∷ 65 ∷ 76 ∷ 32 ∷ []

-- The error of a line, " (errno=" and ") " with it.
abbrev pub error_items : (strerror : ℕ → List ℕ) → ℕ → List Item
error_items strerror saved_errno =
    if saved_errno == 0
    then []
    else c_string (some (strerror saved_errno))
      ∷ c_string (some (32 ∷ 40 ∷ 101 ∷ 114 ∷ 114 ∷ 110 ∷ 111 ∷ 61 ∷ []))
      ∷ integer (pos saved_errno)
      ∷ c_string (some (41 ∷ 32 ∷ []))
      ∷ []

-- `Impl::Impl`, after the time and the thread's identifier.
abbrev pub start_items :
    (strerror : ℕ → List ℕ) → List ℕ → List ℕ → List ℕ → LogLevel → ℕ → List Item
start_items strerror time us tid level saved_errno =
    text time ∷ text us ∷ text tid ∷ text (log_level_name level) ∷ error_items strerror saved_errno

-- `Impl::finish`, with " - ".
abbrev pub finish_items : List ℕ → ℕ → List Item
finish_items basename line =
    c_string (some (32 ∷ 45 ∷ 32 ∷ []))
    ∷ text basename
    ∷ char 58
    ∷ integer (pos line)
    ∷ char 10
    ∷ []

pub data Effect : Type 0 where
  outputs : List ℕ → Effect
  flushes aborts : Effect

-- The destructor, after `finish`.
abbrev pub is_fatal : LogLevel → Bool
is_fatal fatal = true
is_fatal _ = false

abbrev pub destroy_logger : LogLevel → FixedBuffer → List Effect
destroy_logger level b = outputs b.written ∷ (if is_fatal level then flushes ∷ aborts ∷ [] else [])

-- The values of a line, the message in the middle.
abbrev pub line_items :
    (strerror : ℕ → List ℕ)
    → List ℕ
    → List ℕ
    → List ℕ
    → LogLevel
    → ℕ
    → List Item
    → List ℕ
    → ℕ
    → List Item
line_items strerror time us tid level saved_errno message filename line =
    start_items strerror time us tid level saved_errno
    ++ (message ++ finish_items (source_file filename) line)

-- A line of these values, in a buffer of `kSmallBuffer`.
unfoldable pub write_line : (snprintf : ℕ → List ℕ) → LogLevel → List Item → Option (List Effect)
write_line snprintf level items =
    put_all 4000 snprintf items (record { written = [] }) >>= λ b. some (destroy_logger level b)

-- A line from the constructor to the destructor. `none` is an assertion that fails.
unfoldable pub log_line :
    (snprintf strerror : ℕ → List ℕ)
    → (time us tid : List ℕ) → (tid_length : ℕ) → LogLevel
    → (saved_errno : ℕ) → List Item
    → (filename : List ℕ) → (line : ℕ) → Option (List Effect)
log_line snprintf strerror time us tid tid_length level saved_errno message filename line =
    if (length tid == tid_length) && (length (log_level_name level) == 6)
    then write_line snprintf level
        (line_items strerror time us tid level saved_errno message filename line)
    else none

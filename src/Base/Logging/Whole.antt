-- ===== src/Base/Logging/Whole.antt =====
-- A log line that fits into its buffer.
use dxian.Prelude.{ℕ, ◌≡◌, ◌⊎◌, List, [], ◌∷◌, ◌++◌, if◌then◌else◌}
use dxian.Prelude.Int.{pos}
use dxian.Base.LogStream.Convert.{read_decimal}
use dxian.Base.Logging.{LogLevel}
use dxian.Base.Logging.Line.{Effect, outputs, flushes, aborts, is_fatal, log_level_name}

abbrev effects : LogLevel → List ℕ → List Effect
effects level t = outputs t ∷ (if is_fatal level then flushes ∷ aborts ∷ [] else [])

-- The text before the message, and the one after it.
abbrev pub IsStart : (ℕ → List ℕ) → List ℕ → List ℕ → List ℕ → LogLevel → ℕ → List ℕ → Type 0
IsStart strerror time us tid level saved_errno start =
    (shown : List ℕ) × (start ≡ time ++ (us ++ (tid ++ (log_level_name level ++ shown))))
    × (((saved_errno ≡ 0) × (shown ≡ []))
        ⊎ ((ds : List ℕ) × (read_decimal ds ≡ pos saved_errno)
            × (shown
                ≡ strerror saved_errno
                  ++ (32 ∷ 40 ∷ 101 ∷ 114 ∷ 114 ∷ 110 ∷ 111 ∷ 61 ∷ (ds ++ 41 ∷ 32 ∷ [])))))

abbrev pub IsEnd : List ℕ → ℕ → List ℕ → Type 0
IsEnd basename line end =
    (ds : List ℕ) × (read_decimal ds ≡ pos line)
    × (end ≡ 32 ∷ 45 ∷ 32 ∷ (basename ++ 58 ∷ (ds ++ 10 ∷ [])))

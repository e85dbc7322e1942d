-- ===== src/Base/Logging/Cache.antt =====
-- The lines of a thread, with the cached seconds and without.
--
-- snprintf(3) pads the fields of a calendar time to their widths: the text of a year up to 9999 and of fields of two digits has 17
-- characters, and that of microseconds has 6.
use dxian.Prelude.{
  ℕ, ◌/◌, ◌%◌, ◌<◌, ◌≤◌, ◌≡◌, ◌⊎◌, inl, inr, refl, sym, ap, ◌∙◌, Option, none, some, List, [], ◌∷◌,
  ◌++◌, arith, Bool-cases, ◌==◌, length, length-append,
}
use dxian.Prelude.Int.{ℤ, pos_part, neg_part}
use dxian.Base.TimeZone.{DateTime, Data}
use dxian.Base.Logging.{Local, new_thread, date_time_at, us, us_length, streamed, format_time}

given : {a b : DateTime} → some a ≡ some b → a ≡ b
given e = ground arith

us-length :
    (print_time : DateTime → List ℕ) (print_micros : ℕ → List ℕ)
    → ((n : ℕ) → n < 1000000 → length (print_micros n) ≡ 6)
    → (tz : Option Data) (n : ℕ) → n < 1000000
    → length (us print_time print_micros tz n) ≡ us_length print_time print_micros tz
us-length print_time print_micros six none n h =
    omega (arith, length-append (print_micros n) (90 ∷ 32 ∷ []), six n h)
us-length print_time print_micros six (some d) n h =
    omega (arith, length-append (print_micros n) (32 ∷ []), six n h)

-- An integer from 0 to `most`.
abbrev pub UpTo : ℕ → ℤ → Type 0
UpTo most z = (neg_part z ≡ 0) × (pos_part z ≤ most)

abbrev pub InWidth : DateTime → Type 0
InWidth dt =
    UpTo 9999 dt.year
    × UpTo 99 dt.month
    × UpTo 99 dt.day
    × UpTo 99 dt.hour
    × UpTo 99 dt.minute
    × UpTo 99 dt.second

module _ (print_time : DateTime → List ℕ) (print_micros : ℕ → List ℕ)
    (padded : (dt : DateTime) → InWidth dt → length (print_time dt) ≡ 17)
    (six : (n : ℕ) → n < 1000000 → length (print_micros n) ≡ 6) (tz : Option Data) where
  -- The times of several lines, one after the other.
  pub times_of : List ℕ → Local → Option (List (List ℕ))
  times_of [] t = some []
  times_of (x ∷ xs) t = elim (format_time print_time print_micros tz x t) [
    | none ↦ none
    | some (text, t') ↦ elim (times_of xs t') [ none ↦ none | some rest ↦ some (text ∷ rest) ]
  ]

  -- A time after the first second of 1970, with a calendar time up to the year 9999.
  abbrev pub Shows : ℕ → DateTime → Type 0
  Shows x dt =
      (0 < x / 1000000)
      × (date_time_at print_time print_micros tz (x / 1000000) ≡ some dt)
      × InWidth dt

  -- Each line formatted by itself.
  abbrev pub fresh : ℕ → DateTime → List ℕ
  fresh x dt = print_time dt ++ us print_time print_micros tz (x % 1000000)

  abbrev pub Fresh : List ℕ → List (List ℕ) → Type 0
  Fresh [] [] = Unit {0}
  Fresh [] (y ∷ ys) = 0 < 0
  Fresh (x ∷ xs) [] = 0 < 0
  Fresh (x ∷ xs) (y ∷ ys) = ((dt : DateTime) × Shows x dt × (y ≡ fresh x dt)) × Fresh xs ys

  abbrev pub AllShow : List ℕ → Type 0
  AllShow [] = Unit {0}
  AllShow (x ∷ xs) = ((dt : DateTime) × Shows x dt) × AllShow xs

  -- The cache is empty, or it has the text of its second.
  abbrev Valid : Local → Type 0
  Valid t =
      (t.t_last_second ≡ 0)
      ⊎ ((dt : DateTime) × (date_time_at print_time print_micros tz t.t_last_second ≡ some dt)
          × (t.t_time ≡ print_time dt))

  streamed-whole :
      (n : ℕ) (t : Local)
      → n < 1000000
      → length t.t_time ≡ 17
      → streamed print_time print_micros tz n t
        ≡ some (t.t_time ++ us print_time print_micros tz n, t)
  streamed-whole n t h size = rw (us-length print_time print_micros six tz n h, size) (ground arith)

  -- The cached text is that of the second.
  cached :
      (t : Local) (dt : DateTime) (s : ℕ)
      → Valid t
      → s ≡ t.t_last_second
      → 0 < s
      → date_time_at print_time print_micros tz s ≡ some dt
      → t.t_time ≡ print_time dt
  cached t dt s (inl zero) e positive at = absurd (omega (arith, zero, e, positive))
  cached t dt s (inr (d, at', text)) e positive at =
      let same : d ≡ dt = given (sym at' ∙ (rw (← e) at)) in text ∙ ap print_time same

  format_time-fresh :
      (x : ℕ) (t : Local) (dt : DateTime)
      → Valid t
      → Shows x dt
      → (t' : Local) × (format_time print_time print_micros tz x t ≡ some (fresh x dt, t'))
        × Valid t'
  unfolding format_time
  format_time-fresh x t dt valid (positive, at, in_width) =
      let size : length (print_time dt) ≡ 17 = padded dt in_width in
      elim (Bool-cases (x / 1000000 == t.t_last_second)) [
        | inl same ↦
            let now : x / 1000000 ≡ t.t_last_second = ground (arith, same) in
            let text : t.t_time ≡ print_time dt = cached t dt (x / 1000000) valid now positive at in
            (
              t,
              rw same (
                  rw (streamed-whole (x % 1000000) t (omega arith) (ap length text ∙ size))
                    (rw text refl)),
              valid,
            )
        | inr new ↦
            let t1 : Local = record { t_time = print_time dt; t_last_second = x / 1000000 } in
            (
              t1,
              rw (new, at, size) (streamed-whole (x % 1000000) t1 (omega arith) size),
              inr (dt, at, refl),
            )
      ]

  times_of-Fresh :
      (xs : List ℕ) (t : Local)
      → Valid t
      → AllShow xs
      → (ys : List (List ℕ)) × (times_of xs t ≡ some ys) × Fresh xs ys
  unfolding times_of
  times_of-Fresh [] t valid h = ([], refl, tt)
  times_of-Fresh (x ∷ xs) t valid ((dt, shows), h) =
      let (t', done, valid') = format_time-fresh x t dt valid shows in
      let (ys, rest, fresh_rest) = times_of-Fresh xs t' valid' h in
      (fresh x dt ∷ ys, rw (times_of, done, rest) refl, ((dt, shows, refl), fresh_rest))

  -- The lines of a new thread, while the time zone of the log stays: for any times after the first second of 1970 and up to the year 9999, in any order, no assertion fails and the text of each
  -- line's time is the one that formatting its own time gives, though seconds that do not change are not formatted again.
  pub new_thread-Fresh :
      (xs : List ℕ)
      → AllShow xs
      → (ys : List (List ℕ)) × (times_of xs new_thread ≡ some ys) × Fresh xs ys
  new_thread-Fresh xs h = times_of-Fresh xs new_thread (inl refl) h

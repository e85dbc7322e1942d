-- ===== src/Base/LogStream/Units.antt =====
-- `formatSI` and `formatIEC` round to three digits.
use dxian.Prelude.{
  ℕ, ◌≤◌, ◌<◌, ◌≡◌, ◌⊎◌, inl, inr, refl, List, [], ◌∷◌, if◌then◌else◌, Bool-cases, arith, ◌==◌,
}
use dxian.Prelude.Int.{ℤ, pos, ltb_ℤ}
use dxian.Base.LogStream.Format.{format_large, format_si, format_binary, format_iec}
use dxian.Base.LogStream.Rounding.{IsFixed, Shown, si_group, iec_group}

-- What the letters of units stand for: "k" and "K", "M", "G", "T". Any other character stands for nothing.
abbrev pub si_value : ℕ → ℕ
si_value u =
    if u == 107
    then 1000
    else if u == 77
    then 1000000
    else if u == 71
    then 1000000000
    else if u == 84
    then 1000000000000
    else 0

abbrev pub iec_value : ℕ → ℕ
iec_value u =
    if u == 75
    then 1024
    else if u == 77
    then 1048576
    else if u == 71
    then 1073741824
    else if u == 84
    then 1099511627776
    else 0

module _ (print : ℤ → List ℕ) (fixed : ℕ → ℕ → ℕ → List ℕ) (law : IsFixed fixed) where
  large_shows :
      (s : ℕ)
      → 1000 ≤ s
      → s < 999500000000000
      → (u : ℕ) × (0 < si_value u) × Shown (format_large fixed s) (u ∷ []) (si_value u) s 999
  unfolding format_large
  large_shows s large small =
      si_group fixed law 1 s (107 ∷ []) _ (omega arith) (omega arith) (omega (arith, large)) P
        (λ t h. (107, omega arith, h))
        (λ a.
          si_group fixed law 1000 s (77 ∷ []) _ (omega arith) (omega arith) (omega (arith, a)) P
            (λ t h. (77, omega arith, h))
            (λ b.
              si_group fixed law 1000000 s (71 ∷ []) _ (omega arith) (omega arith)
                (omega (arith, b)) P (λ t h. (71, omega arith, h))
                (λ c.
                  si_group fixed law 1000000000 s (84 ∷ []) _ (omega arith) (omega arith)
                    (omega (arith, c)) P (λ t h. (84, omega arith, h))
                    (λ d. absurd (omega (arith, d, small))))))
    where
      P : List ℕ → Type 0
      P text = (u : ℕ) × (0 < si_value u) × Shown text (u ∷ []) (si_value u) s 999

  binary_shows :
      (s : ℕ)
      → 1024 ≤ s
      → s < 1125350151028736
      → (u : ℕ) × (0 < iec_value u)
        × Shown (format_binary fixed s) (u ∷ 105 ∷ []) (iec_value u) s 1023
  unfolding format_binary
  binary_shows s large small =
      iec_group fixed law 1024 s (75 ∷ 105 ∷ []) _ (omega arith) (omega arith)
        (omega (arith, large)) P (λ t h. (75, omega arith, h))
        (λ a.
          iec_group fixed law 1048576 s (77 ∷ 105 ∷ []) _ (omega arith) (omega arith)
            (omega (arith, a)) P (λ t h. (77, omega arith, h))
            (λ b.
              iec_group fixed law 1073741824 s (71 ∷ 105 ∷ []) _ (omega arith) (omega arith)
                (omega (arith, b)) P (λ t h. (71, omega arith, h))
                (λ c.
                  iec_group fixed law 1099511627776 s (84 ∷ 105 ∷ []) _ (omega arith) (omega arith)
                    (omega (arith, c)) P (λ t h. (84, omega arith, h))
                    (λ d. absurd (omega (arith, d, small))))))
    where
      P : List ℕ → Type 0
      P text = (u : ℕ) × (0 < iec_value u) × Shown text (u ∷ 105 ∷ []) (iec_value u) s 1023

  -- `formatSI` prints a number below 1000 whole. One from 1000 on and below 999.5T becomes three digits, with a point where it belongs,
  -- and the letter of a unit, "k", "M", "G" or "T": five characters at most. The digits times what the letter stands for are the nearest to the number. `snprintf` rounds to the
  -- nearest while doubles are exact enough.
  pub format_si-shows :
      (s : ℕ)
      → s < 999500000000000
      → (s < 1000) × (format_si print fixed (pos s) ≡ print (pos s))
        ⊎ (1000 ≤ s)
          × ((u : ℕ) × (0 < si_value u)
              × Shown (format_si print fixed (pos s)) (u ∷ []) (si_value u) s 999)
  unfolding format_si
  format_si-shows s small = elim (Bool-cases (ltb_ℤ (pos s) (pos 1000))) [
    | inl e ↦ inl (ground (arith, e), rw e refl)
    | inr e ↦ inr (ground (arith, e), rw e (large_shows s (ground (arith, e)) small))
  ]

  -- `formatIEC` prints a number below 1024 whole. One from 1024 on and below 1023.5Ti becomes three digits with a point where it
  -- belongs, or four up to 1023, and a binary unit, "Ki", "Mi", "Gi" or "Ti": six characters at most. The digits times what the unit stands for are the nearest to the
  -- number. `snprintf` rounds to the nearest while doubles are exact enough.
  pub format_iec-shows :
      (s : ℕ)
      → s < 1125350151028736
      → (s < 1024) × (format_iec print fixed (pos s) ≡ print (pos s))
        ⊎ (1024 ≤ s)
          × ((u : ℕ) × (0 < iec_value u)
              × Shown (format_iec print fixed (pos s)) (u ∷ 105 ∷ []) (iec_value u) s 1023)
  unfolding format_iec
  format_iec-shows s small = elim (Bool-cases (ltb_ℤ (pos s) (pos 1024))) [
    | inl e ↦ inl (ground (arith, e), rw e refl)
    | inr e ↦ inr (ground (arith, e), rw e (binary_shows s (ground (arith, e)) small))
  ]

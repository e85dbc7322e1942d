-- ===== src/Base/LogStream/Rounding.antt =====
-- Three digits to the nearest, as `formatSI` and `formatIEC` choose the places and the unit.
use dxian.Prelude.{
  ℕ, zero, suc, ◌+◌, ◌*◌, ◌/◌, ◌%◌, ◌^◌, ◌≤◌, ◌<◌, ◌≡◌, ◌⊎◌, inl, inr, refl, ap, List, [], ◌∷◌,
  ◌++◌, ltb, if◌then◌else◌, length, length-append, Bool-cases, arith,
}

-- The digits of a number below 10000, and of a tenth and of a hundredth of it.
abbrev whole : ℕ → List ℕ
whole m =
    if ltb m 10
    then (48 + m) ∷ []
    else if ltb m 100
    then (48 + m / 10) ∷ (48 + m % 10) ∷ []
    else if ltb m 1000
    then (48 + m / 100) ∷ (48 + m / 10 % 10) ∷ (48 + m % 10) ∷ []
    else (48 + m / 1000) ∷ (48 + m / 100 % 10) ∷ (48 + m / 10 % 10) ∷ (48 + m % 10) ∷ []

abbrev pub decimal : ℕ → ℕ → List ℕ
decimal zero m = whole m
decimal (suc zero) m = whole (m / 10) ++ 46 ∷ (48 + m % 10) ∷ []
decimal (suc (suc p)) m = whole (m / 100) ++ 46 ∷ (48 + m / 10 % 10) ∷ (48 + m % 10) ∷ []

-- `m` is the quotient of `s` and `d` in units of the last of `p` places, to the nearest.
abbrev pub Nearest : ℕ → ℕ → ℕ → ℕ → Type 0
Nearest p s d m = (2 * (m * d) ≤ 2 * (s * 10 ^ p) + d) × (2 * (s * 10 ^ p) ≤ 2 * (m * d) + d)

-- `snprintf` rounds to the nearest, and up to 2 ^ 51 the rounding of the quotient to a double does not show.
abbrev pub IsFixed : (ℕ → ℕ → ℕ → List ℕ) → Type 0
IsFixed fixed =
    (p s d : ℕ)
    → p ≤ 2
    → 0 < d
    → s * 10 ^ p < 2 ^ 51
    → (m : ℕ) × Nearest p s d m × (m < 10000 → fixed p s d ≡ decimal p m)

-- The text has three digits or more, `most` at most, rounded to the nearest, before a unit of value `d`.
abbrev pub Shown : List ℕ → List ℕ → ℕ → ℕ → ℕ → Type 0
Shown text unit d s most =
    (m p : ℕ) × (text ≡ decimal p m ++ unit)
    × (100 ≤ m)
    × (m ≤ most)
    × (p ≤ 2)
    × Nearest p s d m
    × (length text ≤ 4 + length unit)

length-decimal : (p m : ℕ) → m < 10000 → (p ≡ 0) ⊎ (m < 1000) → length (decimal p m) ≤ 4
length-decimal zero m h k = ground arith
length-decimal (suc zero) m h k = ground arith
length-decimal (suc (suc p)) m h k = ground arith

times_le : (a b k : ℕ) → a ≤ b → a * k ≤ b * k
times_le a b k h = grind arith

three_digits :
    (x d m most : ℕ)
    → 2 * (m * d) ≤ 2 * x + d
    → 2 * x ≤ 2 * (m * d) + d
    → 199 * d < 2 * x
    → 2 * x < 2 * (most * d) + d
    → (100 ≤ m) × (m ≤ most)
three_digits x d m most above below large small = (
  elim (Bool-cases (ltb m 100)) [
    | inl e ↦ absurd (omega (arith, times_le m 99 d (ground (arith, e)), below, large))
    | inr e ↦ ground (arith, e)
  ],
  elim (Bool-cases (ltb most m)) [
    | inl e ↦ absurd (omega (arith, times_le (most + 1) m d (ground (arith, e)), above, small))
    | inr e ↦ ground (arith, e)
  ],
)

pick :
    (P : List ℕ → Type 0) (s hi : ℕ) (a b : List ℕ)
    → (s < hi → P a)
    → (hi ≤ s → P b)
    → P (if ltb s hi then a else b)
pick P s hi a b f g = elim (Bool-cases (ltb s hi)) [
  | inl e ↦ rw e (f (ground (arith, e)))
  | inr e ↦ rw e (g (ground (arith, e)))
]

module _ (fixed : ℕ → ℕ → ℕ → List ℕ) (law : IsFixed fixed) where
  shows :
      (p s d most : ℕ) (unit : List ℕ)
      → p ≤ 2
      → 0 < d
      → s * 10 ^ p < 2 ^ 51
      → most < 10000
      → (p ≡ 0) ⊎ (most < 1000)
      → 199 * d < 2 * (s * 10 ^ p)
      → 2 * (s * 10 ^ p) < 2 * (most * d) + d
      → Shown (fixed p s d ++ unit) unit d s most
  shows p s d most unit few positive small low fits large less =
      let (m, near, text) = law p s d few positive small in
      let (least, at_most) = three_digits (s * 10 ^ p) d m most near.0 near.1 large less in
      let e = text (omega (arith, at_most, low)) in
      (
        m,
        p,
        ap (λ t. t ++ unit) e,
        least,
        at_most,
        few,
        near,
        rw e (
            omega (
              arith,
              length-append (decimal p m) unit,
              length-decimal p m (omega (arith, at_most, low)) (ground (arith, fits, at_most)),
            )),
      )

  -- The three bounds of a unit of 1000 times `k`, and what comes after them.
  module _ (k s : ℕ) (unit rest : List ℕ) (positive : 0 < k) (small : 999500 * k < 2 ^ 51)
      (least : 1999 * k ≤ 2 * s) where
    abbrev Si : List ℕ → Type 0
    Si text = Shown text unit (1000 * k) s 999

    pub si_group :
        (P : List ℕ → Type 0)
        → ((text : List ℕ) → Si text → P text)
        → (999500 * k ≤ s → P rest)
        → P (
            if ltb s (9995 * k)
            then fixed 2 s (1000 * k) ++ unit
            else if ltb s (99950 * k)
            then fixed 1 s (1000 * k) ++ unit
            else if ltb s (999500 * k)
            then fixed 0 s (1000 * k) ++ unit
            else rest)
    si_group P shown later =
        pick P s (9995 * k) _ _
          (λ h. shown _ (
            shows 2 s (1000 * k) 999 unit (omega arith) (omega (arith, positive))
              (omega (arith, h, small)) (omega arith) (inr (omega arith))
              (omega (arith, least, positive)) (omega (arith, h))))
          (λ i.
            pick P s (99950 * k) _ _
              (λ h. shown _ (
                shows 1 s (1000 * k) 999 unit (omega arith) (omega (arith, positive))
                  (omega (arith, h, small)) (omega arith) (inr (omega arith))
                  (omega (arith, i, positive)) (omega (arith, h))))
              (λ j.
                pick P s (999500 * k) _ _
                  (λ h. shown _ (
                    shows 0 s (1000 * k) 999 unit (omega arith) (omega (arith, positive))
                      (omega (arith, h, small)) (omega arith) (inl refl)
                      (omega (arith, j, positive)) (omega (arith, h))))
                  later))

  -- The same of a unit of `d` in the binary system.
  module _ (d s : ℕ) (unit rest : List ℕ) (positive : 0 < d) (small : 1024 * d < 2 ^ 51)
      (least : 2047 * d ≤ 2048 * s) where
    abbrev Iec : List ℕ → Type 0
    Iec text = Shown text unit d s 1023

    pub iec_group :
        (P : List ℕ → Type 0)
        → ((text : List ℕ) → Iec text → P text)
        → (10235 * d ≤ 10 * s → P rest)
        → P (
            if ltb (1000 * s) (9995 * d)
            then fixed 2 s d ++ unit
            else if ltb (100 * s) (9995 * d)
            then fixed 1 s d ++ unit
            else if ltb (10 * s) (10235 * d)
            then fixed 0 s d ++ unit
            else rest)
    iec_group P shown later =
        pick P (1000 * s) (9995 * d) _ _
          (λ h. shown _ (
            most_1023 (
              shows 2 s d 999 unit (omega arith) positive (omega (arith, h, small)) (omega arith)
                (inr (omega arith)) (omega (arith, least, positive)) (omega (arith, h)))))
          (λ i.
            pick P (100 * s) (9995 * d) _ _
              (λ h. shown _ (
                most_1023 (
                  shows 1 s d 999 unit (omega arith) positive (omega (arith, h, small))
                    (omega arith) (inr (omega arith)) (omega (arith, i, positive))
                    (omega (arith, h)))))
              (λ j.
                pick P (10 * s) (10235 * d) _ _
                  (λ h. shown _ (
                    shows 0 s d 1023 unit (omega arith) positive (omega (arith, h, small))
                      (omega arith) (inl refl) (omega (arith, j, positive)) (omega (arith, h))))
                  later))
      where
        most_1023 : {text : List ℕ} → Shown text unit d s 999 → Iec text
        most_1023 (m, p, e, least_m, most_m, few, near, short) =
            (m, p, e, least_m, omega (arith, most_m), few, near, short)

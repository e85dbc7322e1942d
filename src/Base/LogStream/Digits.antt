-- ===== src/Base/LogStream/Digits.antt =====
-- Digits that are written from the last one to the first, in a base, and how they read.
use dxian.Prelude.{
  ℕ, zero, suc, ◌+◌, ◌*◌, ◌/◌, ◌%◌, ◌≤◌, ◌<◌, ◌≡◌, refl, ap, sym, ◌∙◌, inl, inr, arith, Option,
  some, List, [], ◌∷◌, ◌++◌, ◌==◌, if◌then◌else◌, length, length-append, Bool-cases,
}
use dxian.Base.LogStream.{reverse, ◌>>=◌}

-- Text read from the left, as Horner's scheme does.
abbrev pub horner : (ℕ → ℕ) → ℕ → ℕ → List ℕ → ℕ
horner digit base n [] = n
horner digit base n (c ∷ cs) = horner digit base (n * base + digit c) cs

pub horner-snoc :
    (digit : ℕ → ℕ) (base n c : ℕ) (cs : List ℕ)
    → horner digit base n (cs ++ c ∷ []) ≡ horner digit base n cs * base + digit c
horner-snoc digit base n c [] = refl
horner-snoc digit base n c (d ∷ cs) = horner-snoc digit base (n * base + digit d) c cs

pub reverse-snoc : (c : ℕ) (cs : List ℕ) → reverse (cs ++ c ∷ []) ≡ c ∷ reverse cs
unfolding reverse
reverse-snoc c [] = refl
reverse-snoc c (d ∷ cs) = ap (λ xs. xs ++ d ∷ []) (reverse-snoc c cs)

pub length-reverse : (cs : List ℕ) → length (reverse cs) ≡ length cs
unfolding reverse
length-reverse [] = refl
length-reverse (c ∷ cs) = length-append (reverse cs) (c ∷ []) ∙ (omega (arith, length-reverse cs))

-- No character comes before '0', as a minus sign does.
abbrev pub Printed : List ℕ → Type 0
Printed [] = Unit {0}
Printed (c ∷ cs) = (48 ≤ c) × Printed cs

Printed-snoc : (c : ℕ) (cs : List ℕ) → 48 ≤ c → Printed cs → Printed (cs ++ c ∷ [])
Printed-snoc c [] h p = (h, tt)
Printed-snoc c (d ∷ cs) h p = (p.0, Printed-snoc c cs h p.1)

-- A loop that writes the last digit and goes on with the rest of the number, until that is zero.
module _ (base : ℕ) (char digit : ℕ → ℕ) (printed : (r : ℕ) → 48 ≤ char r)
    (digit-char : (r : ℕ) → r < base → digit (char r) ≡ r)
    (below : (n m : ℕ) → n < base * m → n / base < m) (last : (n : ℕ) → n % base < base)
    (whole : (n : ℕ) → n / base * base + n % base ≡ n) (loop : ℕ → ℕ → Option (List ℕ))
    (step : (k n : ℕ)
      → loop (suc k) n ≡ (
          if n / base == 0
          then some (char (n % base) ∷ [])
          else loop k (n / base) >>= λ cs. some (char (n % base) ∷ cs))) where
  abbrev pub Reads : ℕ → ℕ → List ℕ → Type 0
  Reads k n cs = (horner digit base 0 (reverse cs) ≡ n) × (length cs ≤ k) × Printed (reverse cs)

  Reads-last : (k n : ℕ) → n / base ≡ 0 → Reads (suc k) n (char (n % base) ∷ [])
  unfolding reverse
  Reads-last k n h = (
    ap (λ d. 0 * base + d) (digit-char (n % base) (last n))
        ∙ (ap (λ q. q * base + n % base) (sym h) ∙ whole n),
    omega arith,
    (printed _, tt),
  )

  Reads-more :
      (k n : ℕ) (cs : List ℕ) → Reads k (n / base) cs → Reads (suc k) n (char (n % base) ∷ cs)
  unfolding reverse
  Reads-more k n cs (reads, short, p) = (
    horner-snoc digit base 0 (char (n % base)) (reverse cs)
        ∙ (rw (reads, digit-char (n % base) (last n)) (whole n)),
    omega (arith, short),
    Printed-snoc _ (reverse cs) (printed _) p,
  )

  -- base ^ (k + 1)
  abbrev pub limit : ℕ → ℕ
  limit zero = base * 1
  limit (suc k) = base * limit k

  pub loop-Reads :
      (k n : ℕ) → n < limit k → (cs : List ℕ) × (loop (suc k) n ≡ some cs) × Reads (suc k) n cs
  loop-Reads zero n h =
      let done : n / base ≡ 0 = omega (arith, below n 1 h) in
      (char (n % base) ∷ [], rw (step zero n) (ground (arith, done)), Reads-last zero n done)
  loop-Reads (suc k) n h =
      let (cs, e, r) = loop-Reads k (n / base) (below n (limit k) h) in
      elim (Bool-cases (n / base == 0)) [
        | inl z ↦
            (char (n % base) ∷ [], rw (step (suc k) n, z) refl, Reads-last (suc k) n (ground arith))
        | inr z ↦ (char (n % base) ∷ cs, rw (step (suc k) n, z, e) refl, Reads-more (suc k) n cs r)
      ]

-- ===== src/Base/TimeZone/Zone.antt =====
-- The local time type that applies at a time, and zones with one offset.
use dxian.Prelude.{
  ℕ, zero, suc, ◌<◌, ◌≡◌, ◌⊎◌, inl, inr, refl, arith, true, some, List, [], ◌∷◌, get_elem?, length,
  Bool-cases,
}
use dxian.Prelude.Int.{ℤ, ltb_ℤ, ◌≤ℤ◌}
use dxian.Base.TimeZone.{Data, Transition, LocalTime, last_until, find_local_time}

-- The transitions come in the order of their times.
abbrev pub After : ℤ → List Transition → Type 0
After t [] = Unit {0}
After t (x ∷ xs) = (ltb_ℤ t x.utctime ≡ true) × After x.utctime xs

abbrev pub InOrder : List Transition → Type 0
InOrder [] = Unit {0}
InOrder (x ∷ xs) = After x.utctime xs

abbrev pub In : Transition → List Transition → Type 0
In x [] = 0 < 0
In x (y ∷ ys) = (x ≡ y) ⊎ In x ys

-- The transition is the last one at the time or before it.
pub record Latest (t : ℤ) (xs : List Transition) (x : Transition) : Type 0 where
  pub member : In x xs
  pub begun : x.utctime ≤ℤ t
  pub last : (y : Transition) → In y xs → y.utctime ≤ℤ t → y.utctime ≤ℤ x.utctime

After-later :
    (t : ℤ) (xs : List Transition) (y : Transition)
    → After t xs
    → In y xs
    → ltb_ℤ t y.utctime ≡ true
After-later t [] y a i = absurd (omega (arith, i))
After-later t (x ∷ xs) y a (inl e) = ground (arith, a.0, e)
After-later t (x ∷ xs) y a (inr i) = ground (arith, a.0, After-later x.utctime xs y a.1 i)

alone : (t : ℤ) (x z : Transition) → In z (x ∷ []) → z.utctime ≤ℤ t → z.utctime ≤ℤ x.utctime
alone t x z (inl e) k = ground (arith, e)
alone t x z (inr i) k = absurd (omega (arith, i))

stops :
    (t : ℤ) (x y z : Transition) (ys : List Transition)
    → ltb_ℤ t y.utctime ≡ true
    → After y.utctime ys
    → In z (x ∷ y ∷ ys)
    → z.utctime ≤ℤ t
    → z.utctime ≤ℤ x.utctime
stops t x y z ys e a (inl q) k = ground (arith, q)
stops t x y z ys e a (inr (inl q)) k = ground (arith, q, e, k)
stops t x y z ys e a (inr (inr i)) k = ground (arith, e, k, After-later y.utctime ys z a i)

goes_on :
    (t : ℤ) (x y z w : Transition) (ys : List Transition)
    → ltb_ℤ x.utctime y.utctime ≡ true
    → y.utctime ≤ℤ t
    → Latest t (y ∷ ys) w
    → In z (x ∷ y ∷ ys)
    → z.utctime ≤ℤ t
    → z.utctime ≤ℤ w.utctime
goes_on t x y z w ys e h l (inl q) k = ground (arith, q, e, l.last y (inl refl) h)
goes_on t x y z w ys e h l (inr i) k = l.last z i k

pub last_until-Latest :
    (t : ℤ) (x : Transition) (xs : List Transition)
    → x.utctime ≤ℤ t
    → After x.utctime xs
    → Latest t (x ∷ xs) (last_until (λ y. y.utctime) t x xs)
unfolding last_until
last_until-Latest t x [] h a = record { member = inl refl; begun = h; last = alone t x }
last_until-Latest t x (y ∷ ys) h a = elim (Bool-cases (ltb_ℤ t y.utctime)) [
  | inl e ↦ rw e (record { member = inl refl; begun = h; last = λ z. stops t x y z ys e a.1 })
  | inr e ↦
      let l = last_until-Latest t y ys (ground (arith, e)) a.1 in
      rw e (record {
        member = inr l.member;
        begun = l.begun;
        last = λ z. goes_on t x y z _ ys a.0 (ground (arith, e)) l;
      })
]

-- Every type that a transition names is there, and there is a first one.
abbrev pub Typed : ℕ → List Transition → Type 0
Typed n [] = 0 < n
Typed n (x ∷ xs) = (x.localtime_idx < n) × Typed n xs

pub Typed-In :
    (n : ℕ) (xs : List Transition) (x : Transition) → Typed n xs → In x xs → x.localtime_idx < n
Typed-In n [] x h i = absurd (omega (arith, i))
Typed-In n (y ∷ ys) x h (inl e) = ground (arith, e)
Typed-In n (y ∷ ys) x h (inr i) = Typed-In n ys x h.1 i

pub Typed-some : (n : ℕ) (xs : List Transition) → Typed n xs → 0 < n
Typed-some n [] h = h
Typed-some n (x ∷ xs) h = Typed-some n xs h.1

pub get_elem?-below {ℓ} :
    {A : Type ℓ} (xs : List A) (i : ℕ) → i < length xs → (x : A) × (get_elem? xs i ≡ some x)
get_elem?-below [] i h = absurd (omega arith)
get_elem?-below (x ∷ xs) zero h = (x, refl)
get_elem?-below (x ∷ xs) (suc i) h = get_elem?-below xs i (omega arith)

found :
    (t : ℤ) (ls : List LocalTime) (xs : List Transition)
    → InOrder xs
    → Typed (length ls) xs
    → (local : LocalTime) × (find_local_time t (record { transitions = xs; localtimes = ls })
        ≡ some local)
      × ((((y : Transition) → In y xs → ltb_ℤ t y.utctime ≡ true) × (get_elem? ls 0 ≡ some local))
          ⊎ ((x : Transition) × Latest t xs x × (get_elem? ls x.localtime_idx ≡ some local)))
unfolding find_local_time
found t ls [] o h =
    let (local, e) = get_elem?-below ls 0 h in (local, e, inl (λ y i. absurd (omega (arith, i)), e))
found t ls (x ∷ xs) o h = elim (Bool-cases (ltb_ℤ t x.utctime)) [
  | inl e ↦
      let (local, f) = get_elem?-below ls 0 (Typed-some _ xs h.1) in
      (
        local,
        rw e f,
        inl (
          λ y i. elim i [
            | inl q ↦ ground (arith, q, e)
            | inr j ↦ ground (arith, e, After-later x.utctime xs y o j)
          ],
          f,
        ),
      )
  | inr e ↦
      let l = last_until-Latest t x xs (ground (arith, e)) o in
      let (local, f) = get_elem?-below ls _ (Typed-In _ (x ∷ xs) _ h l.member) in
      (local, rw e f, inr (last_until (λ y. y.utctime) t x xs, l, f))
]

-- `findLocalTime` of a time, in a zone with its transitions in order and with the types that they name,
-- finds a type: that of the last transition at the time or before, or the first type if
-- all transitions are later.
pub find_local_time-finds :
    (t : ℤ) (d : Data)
    → InOrder d.transitions
    → Typed (length d.localtimes) d.transitions
    → (local : LocalTime) × (find_local_time t d ≡ some local)
      × ((((y : Transition) → In y d.transitions → ltb_ℤ t y.utctime ≡ true)
            × (get_elem? d.localtimes 0 ≡ some local))
          ⊎ ((x : Transition) × Latest t d.transitions x
              × (get_elem? d.localtimes x.localtime_idx ≡ some local)))
find_local_time-finds t d o h = found t d.localtimes d.transitions o h

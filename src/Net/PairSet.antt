-- ===== src/Net/PairSet.antt =====
-- `std::set<std::pair<A, B>>` with integers or addresses for A and B: a list without repetition,
-- sorted by the order of pairs. `TimerQueue` keeps three such sets.
use dxian.Prelude.{
  ℕ, suc, ◌≡◌, ◌⊎◌, inl, inr, refl, Bool, true, false, not, ◌&&◌, ◌||◌, List, [], ◌∷◌, arith, ltb,
  ◌==◌, if◌then◌else◌, length, Bool-cases,
}

-- The order of pairs.
abbrev pub lt_pair : ℕ × ℕ → ℕ × ℕ → Bool
lt_pair (a, b) (c, d) = ltb a c || (a == c) && ltb b d

abbrev pub eq_pair : ℕ × ℕ → ℕ × ℕ → Bool
eq_pair (a, b) (c, d) = (a == c) && (b == d)

-- `find(x) != end()`.
unfoldable pub contains : ℕ × ℕ → List (ℕ × ℕ) → Bool
contains x [] = false
contains x (y ∷ ys) = eq_pair x y || contains x ys

-- `insert` leaves a set that has the element as it is.
unfoldable pub insert : ℕ × ℕ → List (ℕ × ℕ) → List (ℕ × ℕ)
insert x [] = x ∷ []
insert x (y ∷ ys) =
    if lt_pair x y then x ∷ y ∷ ys else if lt_pair y x then y ∷ insert x ys else y ∷ ys

unfoldable pub erase : ℕ × ℕ → List (ℕ × ℕ) → List (ℕ × ℕ)
erase x [] = []
erase x (y ∷ ys) = if eq_pair x y then ys else y ∷ erase x ys

-- Every element comes after `x`, and they are sorted.
abbrev pub After : ℕ × ℕ → List (ℕ × ℕ) → Type 0
After x [] = Unit {0}
After x (y ∷ ys) = (lt_pair x y ≡ true) × After y ys

abbrev pub IsSorted : List (ℕ × ℕ) → Type 0
IsSorted [] = Unit {0}
IsSorted (x ∷ xs) = After x xs

pub After-trans : (x y : ℕ × ℕ) (zs : List (ℕ × ℕ)) → lt_pair x y ≡ true → After y zs → After x zs
After-trans x y [] h s = tt
After-trans (a, b) (c, d) ((e, f) ∷ zs) h s = (ground arith, s.1)

insert-After :
    (w x : ℕ × ℕ) (ys : List (ℕ × ℕ)) → lt_pair w x ≡ true → After w ys → After w (insert x ys)
unfolding insert
insert-After w x [] h s = (h, tt)
insert-After w (a, b) ((c, d) ∷ ys) h s = ground (arith, insert-After (c, d) (a, b) ys)

pub insert-IsSorted : (x : ℕ × ℕ) (ys : List (ℕ × ℕ)) → IsSorted ys → IsSorted (insert x ys)
unfolding insert
insert-IsSorted x [] s = tt
insert-IsSorted (a, b) ((c, d) ∷ ys) s = ground (arith, insert-After (c, d) (a, b) ys)

erase-After : (w x : ℕ × ℕ) (ys : List (ℕ × ℕ)) → After w ys → After w (erase x ys)
unfolding erase
erase-After w x [] s = tt
erase-After w (a, b) ((c, d) ∷ ys) s =
    ground (arith, After-trans w (c, d) ys, erase-After (c, d) (a, b) ys)

pub erase-IsSorted : (x : ℕ × ℕ) (ys : List (ℕ × ℕ)) → IsSorted ys → IsSorted (erase x ys)
unfolding erase
erase-IsSorted x [] s = tt
erase-IsSorted (a, b) ((c, d) ∷ []) s = ground arith
erase-IsSorted (a, b) ((c, d) ∷ (e, f) ∷ ys) s =
    ground (arith, erase-After (c, d) (a, b) ((e, f) ∷ ys))

pub contains-insert :
    (x y : ℕ × ℕ) (s : List (ℕ × ℕ)) → contains y (insert x s) ≡ eq_pair y x || contains y s
unfolding contains insert
contains-insert x y [] = refl
contains-insert (a, b) (c, d) ((e, f) ∷ s) = ground (arith, contains-insert (a, b) (c, d) s)

pub length-insert :
    (x : ℕ × ℕ) (s : List (ℕ × ℕ)) → contains x s ≡ false → length (insert x s) ≡ suc (length s)
unfolding contains insert
length-insert x [] h = refl
length-insert (a, b) ((c, d) ∷ s) h = ground (arith, length-insert (a, b) s)

pub length-erase :
    (x : ℕ × ℕ) (s : List (ℕ × ℕ)) → contains x s ≡ true → suc (length (erase x s)) ≡ length s
unfolding contains erase
length-erase x [] h = ground arith
length-erase (a, b) ((c, d) ∷ s) h = ground (arith, length-erase (a, b) s)

-- What comes before a sorted list is not in it.
pub contains-After :
    (x y : ℕ × ℕ) (s : List (ℕ × ℕ))
    → (lt_pair x y ≡ true) ⊎ (eq_pair x y ≡ true)
    → After y s
    → contains x s ≡ false
unfolding contains
contains-After x y [] h k = refl
contains-After (a, b) (c, d) ((e, f) ∷ s) h k = ground (arith, contains-After (a, b) (e, f) s)

pub contains-erase :
    (x y : ℕ × ℕ) (s : List (ℕ × ℕ))
    → IsSorted s
    → contains y (erase x s) ≡ not (eq_pair y x) && contains y s
unfolding contains erase
contains-erase x y [] h = ground arith
contains-erase (a, b) (c, d) ((e, f) ∷ []) h = ground arith
contains-erase (a, b) (c, d) ((e, f) ∷ (g, i) ∷ s) h = ground (
  arith,
  contains-erase (a, b) (c, d) ((g, i) ∷ s),
  contains-After (a, b) (e, f) ((g, i) ∷ s),
  contains-After (c, d) (e, f) ((g, i) ∷ s),
)

-- How an element came into a set, and what stays after a removal.
pub insert-cases :
    (x y : ℕ × ℕ) (s : List (ℕ × ℕ))
    → contains y (insert x s) ≡ true
    → (eq_pair y x ≡ true) ⊎ (contains y s ≡ true)
insert-cases x y s h = ground (arith, contains-insert x y s)

pub erase-cases :
    (x y : ℕ × ℕ) (s : List (ℕ × ℕ))
    → IsSorted s
    → contains y (erase x s) ≡ true
    → (eq_pair y x ≡ false) × (contains y s ≡ true)
erase-cases x y s w h = ground (arith, contains-erase x y s w)

pub After-lt :
    (x y : ℕ × ℕ) (s : List (ℕ × ℕ)) → After x s → contains y s ≡ true → lt_pair x y ≡ true
unfolding contains
After-lt x y [] h e = ground arith
After-lt (a, b) (c, d) ((f, g) ∷ s) h e = ground (arith, After-lt (f, g) (c, d) s h.1)

pub After-IsSorted : (x : ℕ × ℕ) (s : List (ℕ × ℕ)) → After x s → IsSorted s
After-IsSorted x [] h = tt
After-IsSorted x (y ∷ s) h = h.1

pub eq_pair-cases : (x y : ℕ × ℕ) → (x ≡ y) ⊎ (eq_pair x y ≡ false)
eq_pair-cases (a, b) (c, d) = elim (Bool-cases (eq_pair (a, b) (c, d))) [
  | inl e ↦ inl (ground arith)
  | inr e ↦ inr e
]

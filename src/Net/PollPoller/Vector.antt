-- ===== src/Net/PollPoller/Vector.antt =====
-- `std::vector` as `PollPoller` uses it: `push_back`, `pop_back`, a write and a read at an index.
use dxian.Prelude.{
  ℕ, zero, suc, ◌-◌, ◌<◌, ◌≡◌, refl, none, some, List, [], ◌∷◌, ◌++◌, arith, ◌==◌, if◌then◌else◌,
  length, get_elem?, set,
}

module _ {ℓ} {A : Type ℓ} where
  unfoldable pub pop_back : List A → List A
  pop_back [] = []
  pop_back (x ∷ []) = []
  pop_back (x ∷ y ∷ ys) = x ∷ pop_back (y ∷ ys)

  pub get_elem?-push_back :
      (xs : List A) (v : A) (j : ℕ)
      → get_elem? (xs ++ v ∷ []) j ≡ (if j == length xs then some v else get_elem? xs j)
  get_elem?-push_back [] v zero = refl
  get_elem?-push_back [] v (suc j) = ground arith
  get_elem?-push_back (x ∷ xs) v zero = ground arith
  get_elem?-push_back (x ∷ xs) v (suc j) = ground (arith, get_elem?-push_back xs v j)

  pub get_elem?-set :
      (xs : List A) (i j : ℕ) (v : A)
      → i < length xs
      → get_elem? (set xs i v) j ≡ (if i == j then some v else get_elem? xs j)
  get_elem?-set [] i j v h = absurd (omega arith)
  get_elem?-set (x ∷ xs) zero zero v h = refl
  get_elem?-set (x ∷ xs) zero (suc j) v h = ground arith
  get_elem?-set (x ∷ xs) (suc i) zero v h = ground arith
  get_elem?-set (x ∷ xs) (suc i) (suc j) v h = ground (arith, get_elem?-set xs i j v)

  pub length-set : (xs : List A) (i : ℕ) (v : A) → length (set xs i v) ≡ length xs
  length-set [] i v = refl
  length-set (x ∷ xs) zero v = refl
  length-set (x ∷ xs) (suc i) v = ground (arith, length-set xs i v)

  pub get_elem?-pop_back :
      (xs : List A) (j : ℕ)
      → get_elem? (pop_back xs) j ≡ (if suc j == length xs then none else get_elem? xs j)
  unfolding pop_back
  get_elem?-pop_back [] j = ground arith
  get_elem?-pop_back (x ∷ []) zero = ground arith
  get_elem?-pop_back (x ∷ []) (suc j) = ground arith
  get_elem?-pop_back (x ∷ y ∷ ys) zero = ground arith
  get_elem?-pop_back (x ∷ y ∷ ys) (suc j) = ground (arith, get_elem?-pop_back (y ∷ ys) j)

  pub get_elem?-last :
      (xs : List A) → 0 < length xs → (v : A) × (get_elem? xs (length xs - 1) ≡ some v)
  get_elem?-last [] h = absurd (omega arith)
  get_elem?-last (x ∷ []) h = (x, ground arith)
  get_elem?-last (x ∷ y ∷ ys) h =
      let (v, e) = get_elem?-last (y ∷ ys) (omega arith) in (v, ground (arith, e))

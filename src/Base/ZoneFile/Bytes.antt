-- ===== src/Base/ZoneFile/Bytes.antt =====
-- Integers as bytes, the most significant one first, and two's complement.
use dxian.Prelude.{
  ℕ, zero, suc, ◌+◌, ◌-◌, ◌*◌, ◌/◌, ◌%◌, ◌^◌, ◌<◌, ◌≤◌, ◌≡◌, refl, sym, ap, ◌∙◌, false, List, [],
  ◌∷◌, ◌++◌, arith, ltb, if◌then◌else◌, length, take, length-append,
}
use native.Mathlib.Nat.{pow-suc}
use dxian.Prelude.Int.{ℤ, pos, negsuc}

abbrev pub drop {ℓ} : {A : Type ℓ} → ℕ → List A → List A
drop zero xs = xs
drop (suc n) [] = []
drop (suc n) (x ∷ xs) = drop n xs

-- be32toh and be64toh of the bytes read.
unfoldable pub word : ℕ → List ℕ → ℕ
word n [] = n
word n (b ∷ bs) = word (n * 256 + b) bs

-- The conversion to a signed integer of `w + 1` bits.
unfoldable pub signed : ℕ → ℕ → ℤ
signed w n = if ltb n (2 ^ w) then pos n else negsuc (2 ^ suc w - 1 - n)

-- The other way round.
abbrev pub as_unsigned : ℕ → ℤ → ℕ
as_unsigned w (pos n) = n
as_unsigned w (negsuc n) = 2 ^ suc w - 1 - n

abbrev pub big_endian : ℕ → ℕ → List ℕ
big_endian zero n = []
big_endian (suc k) n = big_endian k (n / 256) ++ (n % 256) ∷ []

pub int_bytes : ℕ → ℤ → List ℕ
int_bytes k z = big_endian k (as_unsigned (8 * k - 1) z)

-- The integer has `w + 1` bits.
abbrev pub Fits : ℕ → ℤ → Type 0
Fits w (pos n) = n < 2 ^ w
Fits w (negsuc n) = n < 2 ^ w

drop-nil {ℓ} : {A : Type ℓ} (n : ℕ) → drop {A = A} n [] ≡ []
drop-nil zero = refl
drop-nil (suc n) = refl

pub drop-drop {ℓ} : {A : Type ℓ} (m n : ℕ) (xs : List A) → drop (m + n) xs ≡ drop n (drop m xs)
drop-drop zero n xs = ap (λ k. drop k xs) (omega arith)
drop-drop (suc m) n [] = drop-nil (suc m + n) ∙ sym (drop-nil n)
drop-drop (suc m) n (x ∷ xs) =
    let e : suc m + n ≡ suc (m + n) = omega arith in ap (λ k. drop k (x ∷ xs)) e ∙ drop-drop m n xs

pub drop-append {ℓ} : {A : Type ℓ} (xs ys : List A) → drop (length xs) (xs ++ ys) ≡ ys
drop-append [] ys = refl
drop-append (x ∷ xs) ys = drop-append xs ys

pub take-append {ℓ} : {A : Type ℓ} (xs ys : List A) → take (length xs) (xs ++ ys) ≡ xs
take-append [] ys = refl
take-append (x ∷ xs) ys = rw (take-append xs ys) refl

length-big_endian : (k n : ℕ) → length (big_endian k n) ≡ k
length-big_endian zero n = refl
length-big_endian (suc k) n =
    omega
      (arith, length-append (big_endian k (n / 256)) (n % 256 ∷ []), length-big_endian k (n / 256))

word-append : (m b : ℕ) (bs : List ℕ) → word m (bs ++ b ∷ []) ≡ word m bs * 256 + b
unfolding word
word-append m b [] = refl
word-append m b (x ∷ bs) = word-append (m * 256 + x) b bs

word-big_endian : (k n : ℕ) → n < 256 ^ k → word 0 (big_endian k n) ≡ n
unfolding word
word-big_endian zero n h = omega arith
word-big_endian (suc k) n h =
    let less : n / 256 < 256 ^ k = omega arith in
    rw (word-append 0 (n % 256) (big_endian k (n / 256)), word-big_endian k (n / 256) less)
      (omega arith)

signed-as_unsigned : (w : ℕ) (z : ℤ) → Fits w z → signed w (as_unsigned w z) ≡ z
unfolding signed
signed-as_unsigned w (pos n) h = ground (arith, h)
signed-as_unsigned w (negsuc n) h =
    let bound : 2 ^ w ≤ 2 ^ suc w - 1 - n = omega (arith, pow-suc 2 w) in
    let high : ltb (2 ^ suc w - 1 - n) (2 ^ w) ≡ false = ground (arith, bound) in
    rw high (ap negsuc (omega (arith, pow-suc 2 w)))

as_unsigned-bound : (w : ℕ) (z : ℤ) → Fits w z → as_unsigned w z < 2 ^ suc w
as_unsigned-bound w (pos n) h = omega (arith, pow-suc 2 w)
as_unsigned-bound w (negsuc n) h = omega (arith, pow-suc 2 w)

-- Integers of 32 and of 64 bits come back from their bytes.
pub signed-int32 : (z : ℤ) → Fits 31 z → signed 31 (word 0 (int_bytes 4 z)) ≡ z
unfolding int_bytes
signed-int32 z h =
    rw (word-big_endian 4 (as_unsigned 31 z) (as_unsigned-bound 31 z h)) (signed-as_unsigned 31 z h)

pub signed-int64 : (z : ℤ) → Fits 63 z → signed 63 (word 0 (int_bytes 8 z)) ≡ z
unfolding int_bytes
signed-int64 z h =
    rw (word-big_endian 8 (as_unsigned 63 z) (as_unsigned-bound 63 z h)) (signed-as_unsigned 63 z h)

pub length-int_bytes : (k : ℕ) (z : ℤ) → length (int_bytes k z) ≡ k
unfolding int_bytes
length-int_bytes k z = length-big_endian k (as_unsigned (8 * k - 1) z)

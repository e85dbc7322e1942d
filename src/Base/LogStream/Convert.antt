-- ===== src/Base/LogStream/Convert.antt =====
-- `convert` and `convertHex`: the text reads as the number, and its length is bounded.
use dxian.Prelude.{
  ℕ, zero, suc, ◌+◌, ◌-◌, ◌/◌, ◌%◌, ◌^◌, ◌≤◌, ◌<◌, ◌≡◌, refl, ap, subst, ◌∙◌, arith, some, List, [],
  ◌∷◌, ◌++◌, ◌==◌, ltb, if◌then◌else◌, length, append-nil, get_elem?,
}
use dxian.Prelude.Int.{ℤ, pos, negsuc, pos_part, neg_part, sub_ℕ, ltb_ℤ, ◌+ℤ◌, ◌/ℤ◌, ◌%ℤ◌}
use dxian.Base.LogStream.{
  reverse, digits_hex, zero_at, is_zero, convert_loop, convert, convert_hex_loop, convert_hex,
  ◌>>=◌,
}
use dxian.Base.LogStream.Digits.{Printed, horner, loop-Reads, reverse-snoc, length-reverse}

-- The values of '0' to '9', and of the letters from 'A' on.
abbrev pub decimal_digit : ℕ → ℕ
decimal_digit c = c - 48

abbrev pub hex_digit : ℕ → ℕ
hex_digit c = if ltb c 65 then c - 48 else c - 55

-- Text as a number: a minus sign, or not, before the digits.
abbrev pub read_decimal : List ℕ → ℤ
read_decimal [] = pos 0
read_decimal (c ∷ cs) =
    if c == 45
    then sub_ℕ 0 (horner decimal_digit 10 0 cs)
    else pos (horner decimal_digit 10 0 (c ∷ cs))

zero_at-pos : (r : ℕ) → r < 10 → zero_at (pos r) ≡ some (48 + r)
unfolding zero_at ◌+ℤ◌
zero_at-pos zero h = refl
zero_at-pos (suc zero) h = refl
zero_at-pos (suc (suc zero)) h = refl
zero_at-pos (suc (suc (suc zero))) h = refl
zero_at-pos (suc (suc (suc (suc zero)))) h = refl
zero_at-pos (suc (suc (suc (suc (suc zero))))) h = refl
zero_at-pos (suc (suc (suc (suc (suc (suc zero)))))) h = refl
zero_at-pos (suc (suc (suc (suc (suc (suc (suc zero))))))) h = refl
zero_at-pos (suc (suc (suc (suc (suc (suc (suc (suc zero)))))))) h = refl
zero_at-pos (suc (suc (suc (suc (suc (suc (suc (suc (suc zero))))))))) h = refl
zero_at-pos (suc (suc (suc (suc (suc (suc (suc (suc (suc (suc r)))))))))) h = absurd (omega arith)

zero_at-neg : (r : ℕ) → r < 10 → zero_at (sub_ℕ 0 r) ≡ some (48 + r)
unfolding zero_at ◌+ℤ◌
zero_at-neg zero h = refl
zero_at-neg (suc zero) h = refl
zero_at-neg (suc (suc zero)) h = refl
zero_at-neg (suc (suc (suc zero))) h = refl
zero_at-neg (suc (suc (suc (suc zero)))) h = refl
zero_at-neg (suc (suc (suc (suc (suc zero))))) h = refl
zero_at-neg (suc (suc (suc (suc (suc (suc zero)))))) h = refl
zero_at-neg (suc (suc (suc (suc (suc (suc (suc zero))))))) h = refl
zero_at-neg (suc (suc (suc (suc (suc (suc (suc (suc zero)))))))) h = refl
zero_at-neg (suc (suc (suc (suc (suc (suc (suc (suc (suc zero))))))))) h = refl
zero_at-neg (suc (suc (suc (suc (suc (suc (suc (suc (suc (suc r)))))))))) h = absurd (omega arith)

abbrev hex_char : ℕ → ℕ
hex_char r = if ltb r 10 then 48 + r else 55 + r

digits_hex-at : (r : ℕ) → r < 16 → get_elem? digits_hex r ≡ some (hex_char r)
digits_hex-at zero h = refl
digits_hex-at (suc zero) h = refl
digits_hex-at (suc (suc zero)) h = refl
digits_hex-at (suc (suc (suc zero))) h = refl
digits_hex-at (suc (suc (suc (suc zero)))) h = refl
digits_hex-at (suc (suc (suc (suc (suc zero))))) h = refl
digits_hex-at (suc (suc (suc (suc (suc (suc zero)))))) h = refl
digits_hex-at (suc (suc (suc (suc (suc (suc (suc zero))))))) h = refl
digits_hex-at (suc (suc (suc (suc (suc (suc (suc (suc zero)))))))) h = refl
digits_hex-at (suc (suc (suc (suc (suc (suc (suc (suc (suc zero))))))))) h = refl
digits_hex-at (suc (suc (suc (suc (suc (suc (suc (suc (suc (suc zero)))))))))) h = refl
digits_hex-at (suc (suc (suc (suc (suc (suc (suc (suc (suc (suc (suc zero))))))))))) h = refl
digits_hex-at (suc (suc (suc (suc (suc (suc (suc (suc (suc (suc (suc (suc zero)))))))))))) h = refl
digits_hex-at (suc (suc (suc (suc (suc (suc (suc (suc (suc (suc (suc (suc (suc zero))))))))))))) h =
    refl
digits_hex-at
      (suc (suc (suc (suc (suc (suc (suc (suc (suc (suc (suc (suc (suc (suc zero)))))))))))))) h =
    refl
digits_hex-at
      (suc (suc (suc (suc (suc (suc (suc (suc (suc (suc (suc (suc (suc (suc (suc zero)))))))))))))))
      h =
    refl
digits_hex-at
      (suc
        (suc (suc (suc (suc (suc (suc (suc (suc (suc (suc (suc (suc (suc (suc (suc r))))))))))))))))
      h =
    absurd (omega arith)

loop_step-pos :
    (k n : ℕ)
    → convert_loop (suc k) (pos n) ≡ (
        if n / 10 == 0
        then some ((48 + n % 10) ∷ [])
        else convert_loop k (pos (n / 10)) >>= λ cs. some ((48 + n % 10) ∷ cs))
unfolding convert_loop ◌/ℤ◌ ◌%ℤ◌
loop_step-pos k n = ground (arith, zero_at-pos (n % 10))

neg-suc : (n : ℕ) → sub_ℕ 0 (suc n) ≡ negsuc n
neg-suc n = ground arith

div-neg : (n : ℕ) → sub_ℕ 0 n /ℤ 10 ≡ sub_ℕ 0 (n / 10)
unfolding ◌/ℤ◌
div-neg zero = refl
div-neg (suc n) = ap (λ z. z /ℤ 10) (neg-suc n)

mod-neg : (n : ℕ) → sub_ℕ 0 n %ℤ 10 ≡ sub_ℕ 0 (n % 10)
unfolding ◌%ℤ◌
mod-neg zero = refl
mod-neg (suc n) = ap (λ z. z %ℤ 10) (neg-suc n)

is_zero-neg : (n : ℕ) → is_zero (sub_ℕ 0 n) ≡ (n == 0)
is_zero-neg n = ground arith

loop_step-neg :
    (k n : ℕ)
    → convert_loop (suc k) (sub_ℕ 0 n) ≡ (
        if n / 10 == 0
        then some ((48 + n % 10) ∷ [])
        else convert_loop k (sub_ℕ 0 (n / 10)) >>= λ cs. some ((48 + n % 10) ∷ cs))
unfolding convert_loop
loop_step-neg k n =
    rw (mod-neg n, div-neg n, zero_at-neg (n % 10) (omega arith), is_zero-neg (n / 10)) refl

hex_step :
    (k n : ℕ)
    → convert_hex_loop (suc k) n ≡ (
        if n / 16 == 0
        then some (hex_char (n % 16) ∷ [])
        else convert_hex_loop k (n / 16) >>= λ cs. some (hex_char (n % 16) ∷ cs))
unfolding convert_hex_loop
hex_step k n = ground (arith, digits_hex-at (n % 16))

read_decimal-Printed :
    (cs : List ℕ) → Printed cs → read_decimal cs ≡ pos (horner decimal_digit 10 0 cs)
read_decimal-Printed [] p = refl
read_decimal-Printed (c ∷ cs) p = ground (arith, p.0)

abbrev sign : ℤ → List ℕ
sign value = if ltb_ℤ value (pos 0) then 45 ∷ [] else []

sign-pos : (n : ℕ) → sign (pos n) ≡ []
sign-pos n = ground arith

sign-neg : (n : ℕ) → sign (negsuc n) ≡ 45 ∷ []
sign-neg n = ground arith

convert-loop :
    (value : ℤ) (cs : List ℕ)
    → convert_loop 20 value ≡ some cs
    → convert value ≡ some (reverse (cs ++ sign value))
unfolding convert
convert-loop value cs e = rw e refl

-- An integer of 64 bits, signed or not, becomes text that reads as it, of 21 characters at most.
pub convert-reads :
    (v : ℤ)
    → pos_part v < 2 ^ 64
    → neg_part v < 2 ^ 64
    → (cs : List ℕ) × (convert v ≡ some cs) × (read_decimal cs ≡ v) × (length cs ≤ 21)
convert-reads (pos n) h k =
    let (cs, e, (reads, short, printed)) =
      loop-Reads 10 (λ r. 48 + r) decimal_digit (λ r. omega arith) (λ r q. omega arith)
        (λ n m q. omega arith) (λ n. omega arith) (λ n. omega arith) (λ k n. convert_loop k (pos n))
        loop_step-pos 19 n (omega arith) in
    (
      reverse cs,
      convert-loop (pos n) cs e
          ∙ ap (λ ds. some (reverse ds)) (ap (λ s. cs ++ s) (sign-pos n) ∙ append-nil cs),
      read_decimal-Printed _ printed ∙ ap pos reads,
      omega (arith, short, length-reverse cs),
    )
convert-reads (negsuc m) h k =
    let (cs, e, (reads, short, printed)) =
      loop-Reads 10 (λ r. 48 + r) decimal_digit (λ r. omega arith) (λ r q. omega arith)
        (λ n m q. omega arith) (λ n. omega arith) (λ n. omega arith)
        (λ k n. convert_loop k (sub_ℕ 0 n)) loop_step-neg 19 (suc m) (omega arith) in
    (
      45 ∷ reverse cs,
      convert-loop (negsuc m) cs (subst (λ z. convert_loop 20 z ≡ some cs) (neg-suc m) e)
          ∙ ap some (ap (λ s. reverse (cs ++ s)) (sign-neg m) ∙ reverse-snoc 45 cs),
      ap (sub_ℕ 0) reads ∙ neg-suc m,
      omega (arith, short, length-reverse cs),
    )

-- An address of 64 bits becomes text that reads as it in base 16, of 16 characters at most.
pub convert_hex-reads :
    (v : ℕ)
    → v < 2 ^ 64
    → (cs : List ℕ) × (convert_hex v ≡ some cs) × (horner hex_digit 16 0 cs ≡ v) × (length cs ≤ 16)
unfolding convert_hex
convert_hex-reads v h =
    let (cs, e, (reads, short, printed)) =
      loop-Reads 16 hex_char hex_digit (λ r. ground arith) (λ r q. ground arith)
        (λ n m q. omega arith) (λ n. omega arith) (λ n. omega arith) convert_hex_loop hex_step 15 v
        (omega arith) in
    (reverse cs, rw e refl, reads, omega (arith, short, length-reverse cs))

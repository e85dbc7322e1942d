-- ===== src/Base/LogStream.antt =====
-- server/src/muduo/base/LogStream.cpp and include/LogStream.h: the buffer of a log line, and how
-- values become text in it.
--
-- Text is a list of character codes. A buffer is what stands between `data_` and `cur_`; `none` stands
-- for a write or read outside the buffer, or outside the tables of digits. `snprintf` for a double
-- is a parameter.
pub mod Digits
pub mod Convert
pub mod Buffer
pub mod Format
pub mod Rounding
pub mod Units
mod Tests
use dxian.Prelude.{
  ℕ, zero, suc, ◌+◌, ◌-◌, ◌/◌, ◌%◌, ◌^◌, Bool, true, false, Option, none, some, List, [], ◌∷◌, ◌++◌,
  ltb, leb, ◌==◌, if◌then◌else◌, length, get_elem?,
}
use dxian.Prelude.Int.{ℤ, pos, negsuc, pos_part, neg_part, ◌+ℤ◌, ◌-ℤ◌, ◌/ℤ◌, ◌%ℤ◌, ltb_ℤ}

infixl 5 ◌>>=◌ ◌>>◌
abbrev pub ◌>>=◌ {ℓ κ} : {A : Type ℓ} {B : Type κ} → Option A → (A → Option B) → Option B
none >>= f = none
some a >>= f = f a

abbrev ◌>>◌ {ℓ} : {B : Type ℓ} → Option (Unit {0}) → Option B → Option B
m >> k = m >>= λ _. k

abbrev pub ensure : Bool → Option (Unit {0})
ensure b = if b then some tt else none

-- `std::reverse`.
unfoldable pub reverse : List ℕ → List ℕ
reverse [] = []
reverse (c ∷ cs) = reverse cs ++ c ∷ []

-- "9876543210123456789" and "0123456789ABCDEF".
abbrev pub digits : List ℕ
digits =
    57 ∷ 56 ∷ 55 ∷ 54 ∷ 53 ∷ 52 ∷ 51 ∷ 50 ∷ 49 ∷ 48 ∷ 49 ∷ 50 ∷ 51 ∷ 52 ∷ 53 ∷ 54 ∷ 55 ∷ 56 ∷ 57
    ∷ []

abbrev pub digits_hex : List ℕ
digits_hex = 48 ∷ 49 ∷ 50 ∷ 51 ∷ 52 ∷ 53 ∷ 54 ∷ 55 ∷ 56 ∷ 57 ∷ 65 ∷ 66 ∷ 67 ∷ 68 ∷ 69 ∷ 70 ∷ []

abbrev pub fetch : List ℕ → ℤ → Option ℕ
fetch cs (pos i) = get_elem? cs i
fetch cs (negsuc i) = none

-- `zero[lsd]`, where `zero` is `digits + 9`.
unfoldable pub zero_at : ℤ → Option ℕ
zero_at lsd = fetch digits (pos 9 +ℤ lsd)

abbrev pub is_zero : ℤ → Bool
is_zero i = pos_part i + neg_part i == 0

-- The loop of `convert`: the characters in the order in which they are written.
unfoldable pub convert_loop : ℕ → ℤ → Option (List ℕ)
convert_loop zero i = none
convert_loop (suc fuel) i =
    let rest = convert_loop fuel (i /ℤ 10) in
    zero_at (i %ℤ 10) >>= λ c.
    if is_zero (i /ℤ 10) then some (c ∷ []) else rest >>= λ cs. some (c ∷ cs)

-- An integer of 64 bits has at most 20 digits, and an address at most 16.
unfoldable pub convert : ℤ → Option (List ℕ)
convert value = convert_loop 20 value >>= λ cs.
    some (reverse (cs ++ (if ltb_ℤ value (pos 0) then 45 ∷ [] else [])))

unfoldable pub convert_hex_loop : ℕ → ℕ → Option (List ℕ)
convert_hex_loop zero i = none
convert_hex_loop (suc fuel) i =
    let rest = convert_hex_loop fuel (i / 16) in
    get_elem? digits_hex (i % 16) >>= λ c.
    if i / 16 == 0 then some (c ∷ []) else rest >>= λ cs. some (c ∷ cs)

unfoldable pub convert_hex : ℕ → Option (List ℕ)
convert_hex value = convert_hex_loop 16 value >>= λ cs. some (reverse cs)

pub record FixedBuffer : Type 0 where
  pub written : List ℕ

abbrev pub max_numeric_size : ℕ
max_numeric_size = 48

-- `implicit_cast<size_t>`.
abbrev pub size_t : ℤ → ℕ
size_t (pos n) = n
size_t (negsuc n) = 2 ^ 64 - suc n

-- Values that `operator<<` takes. An integer stands for every integral type, an address for a
-- pointer, text for `string`, `StringPiece`, `Buffer` and `Fmt`.
pub data Item : Type 0 where
  bool : Bool → Item
  integer : ℤ → Item
  pointer : ℕ → Item
  double : ℕ → Item
  char : ℕ → Item
  c_string : Option (List ℕ) → Item
  text : List ℕ → Item

module _ (size : ℕ) where
  unfoldable pub avail : FixedBuffer → ℤ
  avail b = pos size -ℤ pos (length b.written)

  unfoldable pub append : List ℕ → FixedBuffer → FixedBuffer
  append buf b =
      if ltb (length buf) (size_t (avail b)) then record { written = b.written ++ buf } else b

  -- `n` characters are written from `current()` on, of which `add` keeps `cs`.
  unfoldable pub write : ℕ → List ℕ → FixedBuffer → Option FixedBuffer
  write n cs b = do
    ensure (leb (length b.written + n) size)
    ensure (leb (length cs) n)
    some (record { written = b.written ++ cs })

  unfoldable pub has_room : FixedBuffer → Bool
  has_room b = if ltb_ℤ (avail b) (pos max_numeric_size) then false else true

  -- `convert` also writes a zero after the text.
  unfoldable pub format_integer : ℤ → FixedBuffer → Option FixedBuffer
  format_integer v b =
      if has_room b then (convert v >>= λ cs. write (length cs + 1) cs b) else some b

  unfoldable pub format_pointer : ℕ → FixedBuffer → Option FixedBuffer
  format_pointer v b =
      if has_room b
      then (convert_hex v >>= λ cs. write (2 + length cs + 1) (48 ∷ 120 ∷ cs) b)
      else some b

  module _ (snprintf : ℕ → List ℕ) where
    -- `snprintf` writes no more than `kMaxNumericSize` characters, with the zero at the end, and
    -- returns the length of the whole text.
    unfoldable pub format_double : ℕ → FixedBuffer → Option FixedBuffer
    format_double v b =
        let cs = snprintf v in
        let whole = length cs + 1 in
        if has_room b
        then write (if ltb max_numeric_size whole then max_numeric_size else whole) cs b
        else some b

    unfoldable pub put : Item → FixedBuffer → Option FixedBuffer
    put (bool v) b = some (append ((if v then 49 else 48) ∷ []) b)
    put (integer v) b = format_integer v b
    put (pointer p) b = format_pointer p b
    put (double v) b = format_double v b
    put (char c) b = some (append (c ∷ []) b)
    put (c_string (some s)) b = some (append s b)
    put (c_string none) b = some (append (40 ∷ 110 ∷ 117 ∷ 108 ∷ 108 ∷ 41 ∷ []) b)
    put (text s) b = some (append s b)

    unfoldable pub put_all : List Item → FixedBuffer → Option FixedBuffer
    put_all [] b = some b
    put_all (i ∷ is) b = put i b >>= put_all is

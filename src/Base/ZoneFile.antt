-- ===== src/Base/ZoneFile.antt =====
-- server/src/muduo/base/TimeZone.cpp, the reader of zone files: `File`, `readDataBlock`, `readTimeZoneFile`
-- and `loadZoneFile`.
--
-- A file is a list of bytes and a position, which may be past its end. The sum of a time and an offset wraps around in 64 bits, and
-- the products of counts of types and of leap seconds in the number of bytes to skip wrap around in 32 bits; the sum of that number
-- has 64 bits, which are enough. There is memory for every count that is not negative, also on the stack, where
-- `readBytes` has its array.
pub mod Bytes
pub mod Steps
pub mod Block
pub mod RoundTrip
pub mod Soundness
mod Tests
use dxian.Prelude.{
  ℕ, zero, suc, ◌+◌, ◌-◌, ◌*◌, ◌^◌, Bool, true, false, not, ◌&&◌, Option, none, some, List, [], ◌∷◌,
  ◌==◌, ltb, leb, if◌then◌else◌, length, get_elem?, take,
}
use dxian.Prelude.Int.{ℤ, pos, negsuc, ◌+ℤ◌, ◌*ℤ◌, pos_part, neg_part, to_int, to_int64}
use dxian.Base.TimeZone.{Data, Transition, LocalTime}
use dxian.Base.ZoneFile.Bytes.{drop, word, signed}

pub record File : Type 0 where
  pub contents : List ℕ
  pub position : ℕ

pub data Error : Type 0 where
  not_enough_data bad_int64_data bad_int32_data bad_uint8_data bad_head : Error
  -- `vector::at` and `vector::reserve`.
  out_of_range length_error : Error

-- `rejected` is `return false`; an array of negative size is undefined behaviour.
pub data Outcome {ℓ} (A : Type ℓ) : Type ℓ where
  got : A → Outcome A
  rejected : Outcome A
  throws : Error → Outcome A
  undefined : Outcome A

abbrev pub Reader {ℓ} : Type ℓ → Type ℓ
Reader A = File → Outcome (A × File)

abbrev pub continue {ℓ κ} :
    {A : Type ℓ} {B : Type κ} → Outcome (A × File) → (A → Reader B) → Outcome (B × File)
continue (got (a, f)) k = k a f
continue rejected k = rejected
continue (throws e) k = throws e
continue undefined k = undefined

infixl 5 ◌>>=◌ ◌>>◌
abbrev pub ◌>>=◌ {ℓ κ} : {A : Type ℓ} {B : Type κ} → Reader A → (A → Reader B) → Reader B
(r >>= k) f = continue (r f) k

abbrev pub ◌>>◌ {ℓ κ} : {A : Type ℓ} {B : Type κ} → Reader A → Reader B → Reader B
(r >> k) f = continue (r f) (λ a. k)

abbrev pub give {ℓ} : {A : Type ℓ} → A → Reader A
give a f = got (a, f)

abbrev pub throw_if : Error → Bool → Reader (Unit {0})
throw_if e true f = throws e
throw_if e false f = got (tt, f)

abbrev pub reject_if : Bool → Reader (Unit {0})
reject_if true f = rejected
reject_if false f = got (tt, f)

-- fread(3) of `n` bytes, all of which have to be there.
unfoldable pub read_all : Error → ℕ → Reader (List ℕ)
read_all e n f =
    let bytes = take n (drop f.position f.contents) in
    if length bytes == n then got (bytes, record f { position = f.position + n }) else throws e

unfoldable pub read_bytes : ℤ → Reader (List ℕ)
read_bytes (pos n) = read_all not_enough_data n
read_bytes (negsuc n) = λ f. undefined

unfoldable pub read_to_end : Reader (List ℕ)
read_to_end f = got (
  drop f.position f.contents,
  record f { position = f.position + length (drop f.position f.contents) },
)

unfoldable pub read_int64 : Reader ℤ
read_int64 = do bytes ← read_all bad_int64_data 8; give (signed 63 (word 0 bytes))

unfoldable pub read_int32 : Reader ℤ
read_int32 = do bytes ← read_all bad_int32_data 4; give (signed 31 (word 0 bytes))

unfoldable pub read_uint8 : Reader ℕ
read_uint8 = do bytes ← read_all bad_uint8_data 1; give (word 0 bytes)

-- fseek(3) from the position; it fails before the start of the file.
unfoldable pub skip : ℤ → Reader (Unit {0})
skip (pos n) f = got (tt, record f { position = f.position + n })
skip (negsuc n) f =
    got (tt, if leb (n + 1) f.position then record f { position = f.position - (n + 1) } else f)

-- What a zone file holds.
pub record Zone : Type 0 where
  pub data_of : Data
  pub abbreviation : List ℕ
  pub tzstring : List ℕ

abbrev pub eq_ℤ : ℤ → ℤ → Bool
eq_ℤ a b = (pos_part a == pos_part b) && (neg_part a == neg_part b)

abbrev pub eq_bytes : List ℕ → List ℕ → Bool
eq_bytes [] [] = true
eq_bytes [] (y ∷ ys) = false
eq_bytes (x ∷ xs) [] = false
eq_bytes (x ∷ xs) (y ∷ ys) = (x == y) && eq_bytes xs ys

-- A negative count is a size that no vector has.
unfoldable pub reserve : ℤ → Reader (Unit {0})
reserve (pos n) f = got (tt, f)
reserve (negsuc n) f = throws length_error

unfoldable pub times {ℓ} : {A : Type ℓ} → ℕ → Reader A → Reader (List A)
times zero r = give []
times (suc n) r = do a ← r; rest ← times n r; give (a ∷ rest)

unfoldable pub read_local_time : Reader LocalTime
read_local_time = do
  gmtoff ← read_int32
  isdst ← read_uint8
  abbrind ← read_uint8
  give (record { utc_offset = gmtoff; is_dst = not (isdst == 0); desig_idx = abbrind })

unfoldable pub add_transition : List LocalTime → ℤ → ℕ → Reader Transition
add_transition localtimes utc_time localtime_idx = elim (get_elem? localtimes localtime_idx) [
  | none ↦ λ f. throws out_of_range
  | some lt ↦ give (record {
    utctime = utc_time;
    localtime = to_int64 (utc_time +ℤ lt.utc_offset);
    localtime_idx = localtime_idx;
  })
]

unfoldable pub add_transitions : List LocalTime → List ℤ → List ℕ → Reader (List Transition)
add_transitions localtimes [] indices = give []
add_transitions localtimes (t ∷ trans) [] = give []
add_transitions localtimes (t ∷ trans) (i ∷ indices) = do
  x ← add_transition localtimes t i
  xs ← add_transitions localtimes trans indices
  give (x ∷ xs)

-- Neither 0 nor the number of types.
abbrev pub is_other : ℤ → ℤ → Bool
is_other count typecnt = not (eq_ℤ count (pos 0)) && not (eq_ℤ count typecnt)

abbrev pub tzstring_of : Bool → Reader (List ℕ)
tzstring_of true = give []
tzstring_of false = read_to_end

unfoldable pub read_data_block : Bool → Reader Zone
read_data_block v1 = do
  let time_size = if v1 then 4 else 8
  isutccnt ← read_int32
  isstdcnt ← read_int32
  leapcnt ← read_int32
  timecnt ← read_int32
  typecnt ← read_int32
  charcnt ← read_int32
  reject_if (not (eq_ℤ leapcnt (pos 0)))
  reject_if (is_other isutccnt typecnt)
  reject_if (is_other isstdcnt typecnt)
  reserve timecnt
  trans ← times (pos_part timecnt) (if v1 then read_int32 else read_int64)
  indices ← times (pos_part timecnt) read_uint8
  reserve typecnt
  localtimes ← times (pos_part typecnt) read_local_time
  transitions ← add_transitions localtimes trans indices
  abbreviation ← read_bytes charcnt
  skip (leapcnt *ℤ pos (time_size + 4))
  skip isstdcnt
  skip isutccnt
  tzstring ← tzstring_of v1
  give (record {
    data_of = record { transitions = transitions; localtimes = localtimes };
    abbreviation = abbreviation;
    tzstring = tzstring;
  })

-- "TZif".
abbrev pub magic : List ℕ
magic = 84 ∷ 90 ∷ 105 ∷ 102 ∷ []

unfoldable pub check_head : Reader (Unit {0})
check_head = do head ← read_bytes (pos 4); throw_if bad_head (not (eq_bytes head magic))

unfoldable pub read_second_block : ℤ → Reader Zone
read_second_block size = do skip size; check_head; skip (pos 16); read_data_block false

unfoldable pub read_first_block : Reader Zone
read_first_block = do skip (negsuc 23); read_data_block true

unfoldable pub read_time_zone_file : Reader Zone
read_time_zone_file = do
  check_head
  version ← read_bytes (pos 1)
  read_bytes (pos 15)
  isgmtcnt ← read_int32
  isstdcnt ← read_int32
  leapcnt ← read_int32
  timecnt ← read_int32
  typecnt ← read_int32
  charcnt ← read_int32
  if eq_bytes version (50 ∷ [])
      then read_second_block (
          pos 4 *ℤ timecnt
          +ℤ timecnt
          +ℤ to_int (pos 6 *ℤ typecnt)
          +ℤ charcnt
          +ℤ to_int (pos 8 *ℤ leapcnt)
          +ℤ isstdcnt
          +ℤ isgmtcnt)
      else read_first_block

-- Exceptions end here, after their message.
abbrev pub caught : Outcome (Zone × File) → Outcome (Option Zone)
caught (got (z, f)) = got (some z)
caught rejected = got none
caught (throws e) = got none
caught undefined = undefined

-- The argument is what the file holds, if it can be opened.
unfoldable pub load_zone_file : Option (List ℕ) → Outcome (Option Zone)
load_zone_file none = got none
load_zone_file (some bytes) =
    caught (read_time_zone_file (record { contents = bytes; position = 0 }))

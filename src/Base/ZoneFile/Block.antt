-- ===== src/Base/ZoneFile/Block.antt =====
-- A data block in the format of RFC 8536, with no leap seconds, and how it is read.
use dxian.Prelude.{
  ℕ, suc, ◌+◌, ◌^◌, ◌<◌, ◌≡◌, ◌⊎◌, inl, inr, refl, ap, Bool, true, false, some, List, [], ◌∷◌, ◌++◌,
  map, arith, length, get_elem?, if◌then◌else◌,
}
use dxian.Prelude.Int.{to_int64, ℤ, pos, ◌+ℤ◌, ◌*ℤ◌}
use dxian.Base.TimeZone.{Data, Transition, LocalTime}
use dxian.Base.ZoneFile.{
  Reader, ◌>>=◌, give, Zone, read_int32, read_int64, read_uint8, skip, reserve, times,
  read_local_time, add_transition, add_transitions, is_other, reject_if, tzstring_of,
  read_data_block,
}
use dxian.Base.ZoneFile.Bytes.{int_bytes, Fits}
use dxian.Base.ZoneFile.Steps.{
  Reads, Ends, bind-Reads, bind-Ends, next-Ends, give-Reads, finish-Reads, read_int32-Reads,
  read_int64-Reads, read_uint8-Reads, read_bytes-Reads, skip-Reads, reserve-Reads, reject_if-Reads,
  times-Reads, bytes_of, Each,
}

-- A data block, in the order of the format.
abbrev pub local_bytes : LocalTime → List ℕ
local_bytes lt = int_bytes 4 lt.utc_offset ++ (if lt.is_dst then 1 else 0) ∷ lt.desig_idx ∷ []

abbrev pub time_bytes : Bool → ℤ → List ℕ
time_bytes v1 t = int_bytes (if v1 then 4 else 8) t

abbrev pub count : ℕ → List ℕ
count n = int_bytes 4 (pos n)

-- The flags of the format, which the reader skips, and the rest of the file.
pub record Layout : Type 0 where
  pub zone : Zone
  pub isut : List ℕ
  pub isstd : List ℕ
  pub rest : List ℕ

abbrev pub block_bytes : Bool → Layout → List ℕ
block_bytes v1 l =
    let d = l.zone.data_of in
    count (length l.isut)
    ++ (count (length l.isstd)
        ++ (count 0
            ++ (count (length d.transitions)
                ++ (count (length d.localtimes)
                    ++ (count (length l.zone.abbreviation)
                        ++ (bytes_of (time_bytes v1) (map (λ x. x.utctime) d.transitions)
                            ++ (bytes_of (λ i. i ∷ []) (map (λ x. x.localtime_idx) d.transitions)
                                ++ (bytes_of local_bytes d.localtimes
                                    ++ (l.zone.abbreviation
                                        ++ (l.isstd ++ (l.isut ++ l.rest)))))))))))

abbrev pub FitsTime : Bool → Transition → Type 0
FitsTime v1 x = Fits (if v1 then 31 else 63) x.utctime

-- A transition has a type, and the local time by that type.
abbrev pub Typed : List LocalTime → Transition → Type 0
Typed ls x =
    (lt : LocalTime) × (get_elem? ls x.localtime_idx ≡ some lt)
    × (x.localtime ≡ to_int64 (x.utctime +ℤ lt.utc_offset))

pub record WellFormed (v1 : Bool) (l : Layout) : Type 0 where
  pub times_fit : Each (FitsTime v1) l.zone.data_of.transitions
  pub typed : Each (Typed l.zone.data_of.localtimes) l.zone.data_of.transitions
  pub offsets_fit : Each (λ lt. Fits 31 lt.utc_offset) l.zone.data_of.localtimes
  pub few_times : length l.zone.data_of.transitions < 2 ^ 31
  pub few_types : length l.zone.data_of.localtimes < 2 ^ 31
  pub few_chars : length l.zone.abbreviation < 2 ^ 16
  pub isut_count : (length l.isut ≡ 0) ⊎ (length l.isut ≡ length l.zone.data_of.localtimes)
  pub isstd_count : (length l.isstd ≡ 0) ⊎ (length l.isstd ≡ length l.zone.data_of.localtimes)

read_local_time-Reads :
    (lt : LocalTime) → Fits 31 lt.utc_offset → Reads read_local_time (local_bytes lt) lt
unfolding read_local_time
read_local_time-Reads lt h =
    bind-Reads read_int32 (int_bytes 4 lt.utc_offset) lt.utc_offset
      (read_int32-Reads lt.utc_offset h) _ _ _
      (bind-Reads read_uint8 ((if lt.is_dst then 1 else 0) ∷ []) (if lt.is_dst then 1 else 0)
        (read_uint8-Reads _) _ (lt.desig_idx ∷ []) lt
        (finish-Reads read_uint8 (lt.desig_idx ∷ []) lt.desig_idx (read_uint8-Reads lt.desig_idx) _
          lt (ground arith)))

add_transition-Reads :
    (ls : List LocalTime) (x : Transition) (lt : LocalTime)
    → get_elem? ls x.localtime_idx ≡ some lt
    → x.localtime ≡ to_int64 (x.utctime +ℤ lt.utc_offset)
    → Reads (add_transition ls x.utctime x.localtime_idx) [] x
unfolding add_transition
add_transition-Reads ls x lt at local = rw (add_transition, at, ← local) (give-Reads x)

add_transitions-Reads :
    (ls : List LocalTime) (xs : List Transition)
    → Each (Typed ls) xs
    → Reads (add_transitions ls (map (λ x. x.utctime) xs) (map (λ x. x.localtime_idx) xs)) [] xs
unfolding add_transitions add_transition
add_transitions-Reads ls [] h = give-Reads []
add_transitions-Reads ls (x ∷ xs) ((lt, at, local), h) =
    bind-Reads (add_transition ls x.utctime x.localtime_idx) [] x
      (add_transition-Reads ls x lt at local) _ [] (x ∷ xs)
      (finish-Reads (add_transitions ls (map (λ y. y.utctime) xs) (map (λ y. y.localtime_idx) xs))
        [] xs (add_transitions-Reads ls xs h) _ (x ∷ xs) refl)

is_other-count : (n m : ℕ) → (n ≡ 0) ⊎ (n ≡ m) → is_other (pos n) (pos m) ≡ false
is_other-count n m h = ground (arith, h)

-- A count, in a `do` block.
pub count-Ends :
    {B : Type 0} (n : ℕ)
    → n < 2 ^ 31
    → (k : ℤ → Reader B) (cs : List ℕ) (b : B) → Ends (k (pos n)) cs b
    → Ends (read_int32 >>= k) (count n ++ cs) b
count-Ends n h = bind-Ends read_int32 (count n) (pos n) (read_int32-Reads (pos n) h)

small_count : (n m : ℕ) → m < 2 ^ 31 → (n ≡ 0) ⊎ (n ≡ m) → n < 2 ^ 31
small_count n m h (inl e) = omega arith
small_count n m h (inr e) = omega arith

length-map : {A B : Type 0} (g : A → B) (xs : List A) → length xs ≡ length (map g xs)
length-map g [] = refl
length-map g (x ∷ xs) = ap suc (length-map g xs)

Each-map :
    {A B : Type 0} (g : A → B) (P : B → Type 0) (xs : List A)
    → Each (λ x. P (g x)) xs
    → Each P (map g xs)
Each-map g P [] h = tt
Each-map g P (x ∷ xs) h = (h.0, Each-map g P xs h.1)

-- A field of the elements of a list, one after the other.
field-Reads :
    {A B : Type 0} (r : Reader B) (enc : B → List ℕ) (P : B → Type 0)
    → ((b : B) → P b → Reads r (enc b) b)
    → (g : A → B) (xs : List A) → Each (λ x. P (g x)) xs
    → Reads (times (length xs) r) (bytes_of enc (map g xs)) (map g xs)
field-Reads r enc P one g xs h =
    rw (length-map g xs) (times-Reads r enc P one (map g xs) (Each-map g P xs h))

any {ℓ} : {A : Type ℓ} (xs : List A) → Each (λ x. Unit {0}) xs
any [] = tt
any (x ∷ xs) = (tt, any xs)

read_time-Reads :
    (v1 : Bool) (t : ℤ)
    → Fits (if v1 then 31 else 63) t
    → Reads (if v1 then read_int32 else read_int64) (time_bytes v1 t) t
read_time-Reads true = read_int32-Reads
read_time-Reads false = read_int64-Reads

no_leap : (v1 : Bool) → Reads (skip (pos 0 *ℤ pos ((if v1 then 4 else 8) + 4))) [] tt
unfolding ◌*ℤ◌ skip
no_leap true f rest e = refl
no_leap false f rest e = refl

finish-Ends :
    {A B : Type 0} (r : Reader A) (bs : List ℕ) (a : A)
    → Ends r bs a
    → (k : A → B) → Ends (r >>= λ x. give (k x)) bs (k a)
finish-Ends r bs a end k f e = let (f', done) = end f e in (f', rw done refl)

module _ (v1 : Bool) (l : Layout) (w : WellFormed v1 l) where
  abbrev d : Data
  d = l.zone.data_of

  pub read_data_block-Ends :
      Ends (tzstring_of v1) l.rest l.zone.tzstring
      → Ends (read_data_block v1) (block_bytes v1 l) l.zone
  unfolding read_data_block
  read_data_block-Ends end =
      count-Ends (length l.isut) (small_count (length l.isut) _ w.few_types w.isut_count) _ _ l.zone
        (count-Ends (length l.isstd) (small_count (length l.isstd) _ w.few_types w.isstd_count) _ _
          l.zone
          (count-Ends 0 (omega arith) _ _ l.zone (
            count-Ends (length d.transitions) w.few_times _ _ l.zone (
              count-Ends (length d.localtimes) w.few_types _ _ l.zone (
                count-Ends (length l.zone.abbreviation) (omega (arith, w.few_chars)) _ _ l.zone (
                  next-Ends (reject_if _) [] tt
                    (reject_if-Reads _
                      (is_other-count (length l.isut) (length d.localtimes) w.isut_count))
                    _ _ l.zone
                    (next-Ends (reject_if _) [] tt
                      (reject_if-Reads _
                        (is_other-count (length l.isstd) (length d.localtimes) w.isstd_count))
                      _ _ l.zone
                      (next-Ends (reserve _) [] tt (reserve-Reads (length d.transitions)) _ _ l.zone
                        (bind-Ends _ _ _
                          (field-Reads _ (time_bytes v1) (Fits (if v1 then 31 else 63))
                            (read_time-Reads v1) (λ x. x.utctime) d.transitions w.times_fit)
                          _ _ l.zone
                          (bind-Ends _ _ _
                            (field-Reads _ (λ i. i ∷ []) (λ i. Unit {0}) (λ i h. read_uint8-Reads i)
                              (λ x. x.localtime_idx) d.transitions (any d.transitions))
                            _ _ l.zone
                            (next-Ends (reserve _) [] tt (reserve-Reads (length d.localtimes)) _ _
                              l.zone
                              (bind-Ends _ _ _
                                (times-Reads read_local_time local_bytes
                                  (λ lt. Fits 31 lt.utc_offset) read_local_time-Reads d.localtimes
                                  w.offsets_fit)
                                _ _ l.zone
                                (bind-Ends _ [] _
                                  (add_transitions-Reads d.localtimes d.transitions w.typed) _ _
                                  l.zone
                                  (bind-Ends _ _ _ (read_bytes-Reads l.zone.abbreviation) _ _ l.zone
                                    (next-Ends (skip _) [] tt (no_leap v1) _ _ l.zone (
                                      next-Ends (skip _) l.isstd tt (skip-Reads l.isstd) _ _ l.zone
                                        (next-Ends (skip _) l.isut tt (skip-Reads l.isut) _ _ l.zone
                                          (finish-Ends _ l.rest l.zone.tzstring end
                                            _))))))))))))))))))

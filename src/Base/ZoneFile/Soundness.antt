-- ===== src/Base/ZoneFile/Soundness.antt =====
-- What every zone that is read from a file fulfils, whatever the file holds.
use dxian.Prelude.{
  ℕ, ◌+◌, not, inl, inr, ◌<◌, ◌≡◌, ◌⊎◌, refl, subst, Bool, true, false, some, List, [], ◌∷◌, arith,
  Option-cases, length, get_elem?, get_elem?-lt, if◌then◌else◌,
}
use dxian.Prelude.Int.{ℤ, pos, negsuc, pos_part, to_int, to_int64, ◌+ℤ◌, ◌*ℤ◌, ltb_ℤ}
use dxian.Base.TimeZone.{Transition, LocalTime, find_local_time}
use dxian.Base.TimeZone.Zone.{InOrder, In, Latest, find_local_time-finds}
use dxian.Base.TimeZone.Zone as Found
use dxian.Base.ZoneFile.{
  File, Outcome, got, rejected, throws, undefined, Reader, ◌>>=◌, give, continue, Zone, Error,
  read_int32, read_int64, read_uint8, read_bytes, reject_if, is_other, eq_ℤ, reserve, times,
  read_local_time, skip, tzstring_of, add_transition, add_transitions, read_data_block,
  read_second_block, read_first_block, read_time_zone_file, load_zone_file, check_head, eq_bytes,
  caught,
}
use dxian.Base.ZoneFile.Steps.{Each}
use dxian.Base.ZoneFile.Block.{Typed}

-- Whatever the reader gives fulfils the predicate.
abbrev Ensures {ℓ} : {A : Type ℓ} → Reader A → (A → Type 0) → Type ℓ
Ensures r P = (f : File) (a : _) (f' : File) → r f ≡ got (a, f') → P a

continue-got {ℓ κ} :
    {A : Type ℓ} {B : Type κ} (m : Outcome (A × File)) (k : A → Reader B) (b : B) (f' : File)
    → continue m k ≡ got (b, f')
    → (a : A) × (f : File) × (m ≡ got (a, f)) × (k a f ≡ got (b, f'))
continue-got (got (a, f)) k b f' e = (a, f, refl, e)
continue-got rejected k b f' e = absurd (ground arith)
continue-got (throws x) k b f' e = absurd (ground arith)
continue-got undefined k b f' e = absurd (ground arith)

bind-Ensures {ℓ κ} :
    {A : Type ℓ} {B : Type κ} (r : Reader A) (Q : A → Type 0) (k : A → Reader B) (P : B → Type 0)
    → Ensures r Q
    → ((a : A) → Q a → Ensures (k a) P)
    → Ensures (r >>= k) P
bind-Ensures r Q k P first next f b f' e =
    let (a, g, e1, e2) = continue-got (r f) k b f' e in next a (first f a g e1) g b f' e2

then-Ensures {ℓ κ} :
    {A : Type ℓ} {B : Type κ} (r : Reader A) (k : A → Reader B) (P : B → Type 0)
    → ((a : A) → Ensures (k a) P)
    → Ensures (r >>= k) P
then-Ensures r k P next f b f' e =
    let (a, g, e1, e2) = continue-got (r f) k b f' e in next a g b f' e2

give-Ensures {ℓ} : {A : Type ℓ} (a : A) (P : A → Type 0) → P a → Ensures (give a) P
give-Ensures a P h f b f' e = let same : a ≡ b = ground arith in subst P same h

none_thrown : {A : Type 0} {x : Error} {y : A} → throws x ≡ got y → ⊥
none_thrown e = ground arith

given :
    {A : Type 0} {a b : A} {f f' : File}
    → ◌≡◌ {A = Outcome (A × File)} (got (a, f)) (got (b, f'))
    → a ≡ b
given e = ground arith

add_transition-Ensures :
    (ls : List LocalTime) (t : ℤ) (i : ℕ) → Ensures (add_transition ls t i) (Typed ls)
unfolding add_transition
add_transition-Ensures ls t i f a f' e = elim (Option-cases (get_elem? ls i)) [
  | inl h ↦ absurd (none_thrown (rw (add_transition, h) at e))
  | inr (lt, h) ↦
      let same : record {
        utctime = t;
        localtime = to_int64 (t +ℤ lt.utc_offset);
        localtime_idx = i;
      }
          ≡ a =
        given (rw (add_transition, h) at e) in
      subst (Typed ls) same (lt, h, refl)
]

add_transitions-Ensures :
    (ls : List LocalTime) (ts : List ℤ) (indices : List ℕ)
    → Ensures (add_transitions ls ts indices) (Each (Typed ls))
unfolding add_transitions
add_transitions-Ensures ls [] indices = give-Ensures [] (Each (Typed ls)) tt
add_transitions-Ensures ls (t ∷ ts) [] = give-Ensures [] (Each (Typed ls)) tt
add_transitions-Ensures ls (t ∷ ts) (i ∷ indices) =
    bind-Ensures (add_transition ls t i) (Typed ls) _ (Each (Typed ls))
      (add_transition-Ensures ls t i)
      (λ x h.
        bind-Ensures (add_transitions ls ts indices) (Each (Typed ls)) _ (Each (Typed ls))
          (add_transitions-Ensures ls ts indices)
          (λ xs hs. give-Ensures (x ∷ xs) (Each (Typed ls)) (h, hs)))

abbrev AllTyped : Zone → Type 0
AllTyped z = Each (Typed z.data_of.localtimes) z.data_of.transitions

read_data_block-Ensures : (v1 : Bool) → Ensures (read_data_block v1) AllTyped
unfolding read_data_block
read_data_block-Ensures v1 = then-Ensures read_int32 _ AllTyped λ isutccnt.
    then-Ensures read_int32 _ AllTyped λ isstdcnt. then-Ensures read_int32 _ AllTyped λ leapcnt.
      then-Ensures read_int32 _ AllTyped λ timecnt. then-Ensures read_int32 _ AllTyped λ typecnt.
        then-Ensures read_int32 _ AllTyped λ charcnt.
          then-Ensures (reject_if (not (eq_ℤ leapcnt (pos 0)))) _ AllTyped λ leap.
            then-Ensures (reject_if (is_other isutccnt typecnt)) _ AllTyped λ isut.
              then-Ensures (reject_if (is_other isstdcnt typecnt)) _ AllTyped λ isstd.
                then-Ensures (reserve timecnt) _ AllTyped λ room.
                  then-Ensures (times (pos_part timecnt) (if v1 then read_int32 else read_int64)) _
                    AllTyped
                    λ trans.
                      then-Ensures (times (pos_part timecnt) read_uint8) _ AllTyped λ indices.
                        then-Ensures (reserve typecnt) _ AllTyped λ room'.
                          then-Ensures (times (pos_part typecnt) read_local_time) _ AllTyped
                            λ localtimes.
                              bind-Ensures (add_transitions localtimes trans indices)
                                (Each (Typed localtimes)) _ AllTyped
                                (add_transitions-Ensures localtimes trans indices)
                                λ transitions typed.
                                  then-Ensures (read_bytes charcnt) _ AllTyped λ abbreviation.
                                    then-Ensures (skip (leapcnt *ℤ pos ((if v1 then 4 else 8) + 4)))
                                      _ AllTyped
                                      λ skipped. then-Ensures (skip isstdcnt) _ AllTyped λ skipped1.
                                        then-Ensures (skip isutccnt) _ AllTyped λ skipped2.
                                          then-Ensures (tzstring_of v1) _ AllTyped λ tzstring.
                                            give-Ensures
                                              (record {
                                                data_of = record {
                                                  transitions = transitions;
                                                  localtimes = localtimes;
                                                };
                                                abbreviation = abbreviation;
                                                tzstring = tzstring;
                                              })
                                              AllTyped typed

choice-Ensures :
    (b : Bool) (r r' : Reader Zone)
    → Ensures r AllTyped
    → Ensures r' AllTyped
    → Ensures (if b then r else r') AllTyped
choice-Ensures true r r' h h' = h
choice-Ensures false r r' h h' = h'

read_second_block-Ensures : (size : ℤ) → Ensures (read_second_block size) AllTyped
unfolding read_second_block
read_second_block-Ensures size = then-Ensures (skip size) _ AllTyped λ skipped.
    then-Ensures check_head _ AllTyped
      λ head. then-Ensures (skip (pos 16)) _ AllTyped λ skipped1. read_data_block-Ensures false

read_first_block-Ensures : Ensures read_first_block AllTyped
unfolding read_first_block
read_first_block-Ensures =
    then-Ensures (skip (negsuc 23)) _ AllTyped λ skipped. read_data_block-Ensures true

read_time_zone_file-Ensures : Ensures read_time_zone_file AllTyped
unfolding read_time_zone_file
read_time_zone_file-Ensures = then-Ensures check_head _ AllTyped λ head.
    then-Ensures (read_bytes (pos 1)) _ AllTyped λ version.
      then-Ensures (read_bytes (pos 15)) _ AllTyped λ reserved.
        then-Ensures read_int32 _ AllTyped λ isgmtcnt.
          then-Ensures read_int32 _ AllTyped λ isstdcnt.
            then-Ensures read_int32 _ AllTyped λ leapcnt.
              then-Ensures read_int32 _ AllTyped λ timecnt.
                then-Ensures read_int32 _ AllTyped λ typecnt.
                  then-Ensures read_int32 _ AllTyped λ charcnt.
                    choice-Ensures (eq_bytes version (50 ∷ [])) _ read_first_block
                      (read_second_block-Ensures (
                        pos 4 *ℤ timecnt
                        +ℤ timecnt
                        +ℤ to_int (pos 6 *ℤ typecnt)
                        +ℤ charcnt
                        +ℤ to_int (pos 8 *ℤ leapcnt)
                        +ℤ isstdcnt
                        +ℤ isgmtcnt))
                      read_first_block-Ensures

caught-got :
    (m : Outcome (Zone × File)) (z : Zone) → caught m ≡ got (some z) → (f : File) × (m ≡ got (z, f))
caught-got (got (y, f)) z e = (f, ground arith)
caught-got rejected z e = absurd (ground arith)
caught-got (throws x) z e = absurd (ground arith)
caught-got undefined z e = absurd (ground arith)

Each-Typed :
    (ls : List LocalTime) (xs : List Transition)
    → 0 < length ls
    → Each (Typed ls) xs
    → Found.Typed (length ls) xs
Each-Typed ls [] some_type h = some_type
Each-Typed ls (x ∷ xs) some_type ((lt, at, local), h) =
    (get_elem?-lt ls x.localtime_idx lt at, Each-Typed ls xs some_type h)

-- Whatever a file holds: if a zone is read from it, each of its transitions names one of its types and has the local time by
-- that type, in 64 bits. If the transitions are in order and there is some type, `findLocalTime` finds a type at every time: that of
-- the last transition at the time or before, or the first type if all transitions are later.
pub load_zone_file-finds :
    (bytes : List ℕ) (z : Zone)
    → load_zone_file (some bytes) ≡ got (some z)
    → Each (Typed z.data_of.localtimes) z.data_of.transitions
      × (InOrder z.data_of.transitions
          → 0 < length z.data_of.localtimes
          → (t : ℤ)
          → (local : LocalTime) × (find_local_time t z.data_of ≡ some local)
            × ((((y : Transition) → In y z.data_of.transitions → ltb_ℤ t y.utctime ≡ true)
                  × (get_elem? z.data_of.localtimes 0 ≡ some local))
                ⊎ ((x : Transition) × Latest t z.data_of.transitions x
                    × (get_elem? z.data_of.localtimes x.localtime_idx ≡ some local))))
unfolding load_zone_file
load_zone_file-finds bytes z e =
    let (f', read) =
      caught-got (read_time_zone_file (record { contents = bytes; position = 0 })) z e in
    let typed = read_time_zone_file-Ensures (record { contents = bytes; position = 0 }) z f' read in
    (
      typed,
      λ ordered some_type t.
          find_local_time-finds t z.data_of ordered
            (Each-Typed z.data_of.localtimes z.data_of.transitions some_type typed),
    )

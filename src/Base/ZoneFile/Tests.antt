-- ===== src/Base/ZoneFile/Tests.antt =====
-- The theorems about zone files, with a zone of one type and one transition.
use dxian.Prelude.{
  ℕ, ◌<◌, ◌≡◌, ◌⊎◌, inl, inr, refl, true, false, none, some, List, [], ◌∷◌, arith, get_elem?,
}
use dxian.Prelude.Int.{ℤ, pos, negsuc, ◌+ℤ◌, ltb_ℤ, to_int64}
use dxian.Base.TimeZone.{Transition, LocalTime, find_local_time}
use dxian.Base.TimeZone.Zone.{In, InOrder, Latest}
use dxian.Base.ZoneFile.{
  Zone, got, load_zone_file, read_time_zone_file, check_head, read_bytes, read_all,
}
use dxian.Base.ZoneFile.Steps.{Each}
use dxian.Base.ZoneFile.Block.{Layout, WellFormed, Typed, block_bytes}
use dxian.Base.ZoneFile.RoundTrip.{Header, WellFormedHeader, header_bytes, load_zone_file-reads}
use dxian.Base.ZoneFile.Soundness.{load_zone_file-finds}

abbrev zeros : List ℕ
zeros = 0 ∷ 0 ∷ 0 ∷ 0 ∷ 0 ∷ 0 ∷ 0 ∷ 0 ∷ 0 ∷ 0 ∷ 0 ∷ 0 ∷ 0 ∷ 0 ∷ 0 ∷ []

-- The first block has one type, of 6 bytes, and a name of 4.
abbrev header : Header
header = record {
  reserved = zeros;
  isgmtcnt = 0;
  isstdcnt = 0;
  leapcnt = 0;
  timecnt = 0;
  typecnt = 1;
  charcnt = 4;
  block = 0 ∷ 0 ∷ 0 ∷ 0 ∷ 0 ∷ 0 ∷ 85 ∷ 84 ∷ 67 ∷ 0 ∷ [];
  second = 50 ∷ zeros;
}

abbrev china : LocalTime
china = record { utc_offset = pos 28800; is_dst = false; desig_idx = 0 }

abbrev change : Transition
change = record { utctime = negsuc 99; localtime = negsuc 99 +ℤ pos 28800; localtime_idx = 0 }

abbrev zone : Zone
zone = record {
  data_of = record { transitions = change ∷ []; localtimes = china ∷ [] };
  abbreviation = 67 ∷ 83 ∷ 84 ∷ 0 ∷ [];
  tzstring = 10 ∷ 67 ∷ 83 ∷ 84 ∷ 45 ∷ 56 ∷ 10 ∷ [];
}

abbrev layout : Layout
layout = record { zone = zone; isut = 0 ∷ []; isstd = []; rest = zone.tzstring }

header-WellFormedHeader : WellFormedHeader header
header-WellFormedHeader = record {
  reserved_size = refl;
  second_size = refl;
  block_size = refl;
  types_size = omega arith;
  leaps_size = omega arith;
  counts =
      (omega arith, (omega arith, (omega arith, (omega arith, (omega arith, (omega arith, tt))))));
}

layout-WellFormed : WellFormed false layout
unfolding to_int64 ◌+ℤ◌
layout-WellFormed = record {
  times_fit = (omega arith, tt);
  typed = ((china, refl, refl), tt);
  offsets_fit = (omega arith, tt);
  few_times = omega arith;
  few_types = omega arith;
  few_chars = omega arith;
  isut_count = inr refl;
  isstd_count = inl refl;
}

load_zone_file-reads_example :
    load_zone_file (some (header_bytes header (block_bytes false layout))) ≡ got (some zone)
load_zone_file-reads_example =
    load_zone_file-reads header header-WellFormedHeader layout layout-WellFormed refl

load_zone_file-finds_example :
    Each (Typed (china ∷ [])) (change ∷ [])
    × (InOrder (change ∷ [])
        → 0 < 1
        → (t : ℤ)
        → (local : LocalTime) × (find_local_time t zone.data_of ≡ some local)
          × ((((y : Transition) → In y (change ∷ []) → ltb_ℤ t y.utctime ≡ true)
                × (get_elem? (china ∷ []) 0 ≡ some local))
              ⊎ ((x : Transition) × Latest t (change ∷ []) x
                  × (get_elem? (china ∷ []) x.localtime_idx ≡ some local))))
load_zone_file-finds_example =
    load_zone_file-finds (header_bytes header (block_bytes false layout)) zone
      (load_zone_file-reads header header-WellFormedHeader layout layout-WellFormed refl)

-- No transition and no type: the reader accepts the file, and the first type is read from an empty vector.
abbrev untyped : Zone
untyped = record {
  data_of = record { transitions = []; localtimes = [] };
  abbreviation = [];
  tzstring = [];
}

abbrev untyped_layout : Layout
untyped_layout = record { zone = untyped; isut = []; isstd = []; rest = [] }

untyped_loads :
    load_zone_file (some (header_bytes header (block_bytes false untyped_layout)))
    ≡ got (some untyped)
untyped_loads =
    load_zone_file-reads header header-WellFormedHeader untyped_layout
      (record {
        times_fit = tt;
        typed = tt;
        offsets_fit = tt;
        few_times = omega arith;
        few_types = omega arith;
        few_chars = omega arith;
        isut_count = inl refl;
        isstd_count = inl refl;
      })
      refl

untyped_fails : find_local_time (pos 0) untyped.data_of ≡ none
unfolding find_local_time
untyped_fails = refl

-- A file that is cut off, and one that cannot be opened.
cut_off : load_zone_file (some (84 ∷ 90 ∷ 105 ∷ [])) ≡ got none
unfolding load_zone_file read_time_zone_file check_head read_bytes read_all
cut_off = refl

unopened : load_zone_file none ≡ got none
unfolding load_zone_file
unopened = refl

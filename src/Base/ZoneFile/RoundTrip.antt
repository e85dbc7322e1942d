-- ===== src/Base/ZoneFile/RoundTrip.antt =====
-- Zone files of version 2, as a writer makes them, and how they are read.
use dxian.Prelude.{
  ℕ, ◌+◌, ◌*◌, ◌^◌, ◌<◌, ◌≡◌, refl, sym, ap, subst, arith, false, some, List, [], ◌∷◌, ◌++◌, length,
}
use dxian.Prelude.Int.{ℤ, pos, ◌+ℤ◌, ◌*ℤ◌, pos_laws, to_int, to_int_lem}
use dxian.Base.ZoneFile.{
  got, read_bytes, skip, check_head, magic, read_second_block, read_time_zone_file, load_zone_file,
  bad_head,
}
use dxian.Base.ZoneFile.Steps.{
  Reads, Ends, bind-Reads, bind-Ends, next-Ends, read_bytes-Reads, skip-Reads, throw_if-Reads,
  read_to_end-Ends, Each,
}
use dxian.Base.ZoneFile.Block.{
  Layout, WellFormed, count, block_bytes, count-Ends, read_data_block-Ends,
}

-- The first header of a version 2 file: the reserved bytes, the counts of the first block, that block and the header after it.
pub record Header : Type 0 where
  pub reserved : List ℕ
  pub isgmtcnt : ℕ
  pub isstdcnt : ℕ
  pub leapcnt : ℕ
  pub timecnt : ℕ
  pub typecnt : ℕ
  pub charcnt : ℕ
  pub block : List ℕ
  pub second : List ℕ

abbrev pub header_bytes : Header → List ℕ → List ℕ
header_bytes h body =
    magic
    ++ ((50 ∷ [])
        ++ (h.reserved
            ++ (count h.isgmtcnt
                ++ (count h.isstdcnt
                    ++ (count h.leapcnt
                        ++ (count h.timecnt
                            ++ (count h.typecnt
                                ++ (count h.charcnt
                                    ++ (h.block ++ (magic ++ (h.second ++ body)))))))))))

pub record WellFormedHeader (h : Header) : Type 0 where
  pub reserved_size : length h.reserved ≡ 15
  pub second_size : length h.second ≡ 16
  pub block_size :
      length h.block
      ≡ 4 * h.timecnt
        + h.timecnt
        + 6 * h.typecnt
        + h.charcnt
        + 8 * h.leapcnt
        + h.isstdcnt
        + h.isgmtcnt
  -- The products that the reader computes as `int` are in range.
  pub types_size : 6 * h.typecnt < 2 ^ 31
  pub leaps_size : 8 * h.leapcnt < 2 ^ 31
  pub counts :
      Each
        (λ n. n < 2 ^ 31)
        (h.isgmtcnt ∷ h.isstdcnt ∷ h.leapcnt ∷ h.timecnt ∷ h.typecnt ∷ h.charcnt ∷ [])

sized_skip-Reads : (n : ℕ) (bs : List ℕ) → length bs ≡ n → Reads (skip (pos n)) bs tt
sized_skip-Reads n bs e = subst (λ k. Reads (skip (pos k)) bs tt) e (skip-Reads bs)

sized_bytes-Reads : (n : ℕ) (bs : List ℕ) → length bs ≡ n → Reads (read_bytes (pos n)) bs bs
sized_bytes-Reads n bs e = subst (λ k. Reads (read_bytes (pos k)) bs bs) e (read_bytes-Reads bs)

check_head-Reads : Reads check_head magic tt
unfolding check_head
check_head-Reads =
    bind-Reads (read_bytes (pos 4)) magic magic (read_bytes-Reads magic) _ [] tt
      (throw_if-Reads bad_head _ refl)

module _ (h : Header) (w : WellFormedHeader h) (l : Layout) (wl : WellFormed false l)
    (rest : l.rest ≡ l.zone.tzstring) where
  second-Ends :
      (size : ℤ)
      → size ≡ pos (length h.block)
      → Ends
          (read_second_block size)
          (h.block ++ (magic ++ (h.second ++ block_bytes false l)))
          l.zone
  unfolding read_second_block
  second-Ends size e = rw e (
      next-Ends _ h.block tt (skip-Reads h.block) _ _ l.zone (
        next-Ends check_head magic tt check_head-Reads _ _ l.zone (
          next-Ends _ h.second tt (sized_skip-Reads 16 h.second w.second_size) _ _ l.zone
            (read_data_block-Ends false l wl (rw rest (read_to_end-Ends l.zone.tzstring))))))

  types_fit : to_int (pos (6 * h.typecnt)) ≡ pos (6 * h.typecnt)
  types_fit = to_int_lem _ (omega (arith, w.types_size)) (omega arith)

  leaps_fit : to_int (pos (8 * h.leapcnt)) ≡ pos (8 * h.leapcnt)
  leaps_fit = to_int_lem _ (omega (arith, w.leaps_size)) (omega arith)

  file-Ends : Ends read_time_zone_file (header_bytes h (block_bytes false l)) l.zone
  unfolding read_time_zone_file
  file-Ends = next-Ends check_head magic tt check_head-Reads _ _ l.zone (
      bind-Ends _ (50 ∷ []) (50 ∷ []) (read_bytes-Reads (50 ∷ [])) _ _ l.zone (
        bind-Ends _ h.reserved h.reserved (sized_bytes-Reads 15 h.reserved w.reserved_size) _ _
          l.zone
          (count-Ends h.isgmtcnt (w.counts.0) _ _ l.zone (
            count-Ends h.isstdcnt (w.counts.1.0) _ _ l.zone (
              count-Ends h.leapcnt (w.counts.1.1.0) _ _ l.zone (
                count-Ends h.timecnt (w.counts.1.1.1.0) _ _ l.zone (
                  count-Ends h.typecnt (w.counts.1.1.1.1.0) _ _ l.zone (
                    count-Ends h.charcnt (w.counts.1.1.1.1.1.0) _ _ l.zone (
                      second-Ends
                        (pos 4 *ℤ pos h.timecnt
                          +ℤ pos h.timecnt
                          +ℤ to_int (pos 6 *ℤ pos h.typecnt)
                          +ℤ pos h.charcnt
                          +ℤ to_int (pos 8 *ℤ pos h.leapcnt)
                          +ℤ pos h.isstdcnt
                          +ℤ pos h.isgmtcnt)
                        (simp pos_laws (
                          rw (types_fit, leaps_fit)
                            (simp pos_laws (ap pos (sym w.block_size))))))))))))))

  -- A file of version 2 in the format, with no leap seconds, is read as the zone that was written, whatever the first block and the
  -- flags hold: its transitions, types and names, and all that follows as the text of the rule. Counts have 31 bits, six
  -- times the types and eight times the leap seconds of the first block too, and the names take fewer than 65536 bytes. Offsets and times
  -- fit their integers, and each transition has a type and its local time.
  pub load_zone_file-reads :
      load_zone_file (some (header_bytes h (block_bytes false l))) ≡ got (some l.zone)
  unfolding load_zone_file
  load_zone_file-reads =
      let (f', done) =
        file-Ends (record { contents = header_bytes h (block_bytes false l); position = 0 }) refl in
      rw done refl

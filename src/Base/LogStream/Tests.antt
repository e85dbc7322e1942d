-- ===== src/Base/LogStream/Tests.antt =====
-- The theorems about log lines at some values, and runs of the code.
use dxian.Prelude.{
  ℕ, ◌+◌, ◌*◌, ◌/◌, ◌%◌, ◌^◌, ◌<◌, ◌⊎◌, ◌≡◌, ◌≤◌, refl, true, some, List, [], ◌∷◌, arith, length,
}
use native.Mathlib.Nat.{div-add-mod, mod-lt}
use dxian.Base.LogStream.Format.{format_large, format_si, format_binary, format_iec}
use dxian.Base.LogStream.Rounding.{decimal, IsFixed, Shown}
use dxian.Base.LogStream.Units.{si_value, iec_value, format_si-shows, format_iec-shows}
use dxian.Prelude.Int.{ℤ, pos, negsuc, ◌+ℤ◌, ◌-ℤ◌, ◌/ℤ◌, ◌%ℤ◌}
use dxian.Base.LogStream.{
  FixedBuffer, Item, bool, integer, pointer, text, convert, convert_hex, convert_loop,
  convert_hex_loop, reverse, zero_at, put, put_all, append, avail, write, has_room, format_integer,
  format_pointer,
}
use dxian.Base.LogStream.Convert.{read_decimal, convert-reads}
use dxian.Base.LogStream.Buffer.{HasRoom, Logs, put_all-Logs}

-- -42
negative : convert (negsuc 41) ≡ some (45 ∷ 52 ∷ 50 ∷ [])
unfolding convert convert_loop zero_at reverse ◌+ℤ◌ ◌/ℤ◌ ◌%ℤ◌
negative = refl

-- 0x1F
hexadecimal : convert_hex 31 ≡ some (49 ∷ 70 ∷ [])
unfolding convert_hex convert_hex_loop reverse
hexadecimal = refl

abbrev no_digits : ℕ → List ℕ
no_digits v = 48 ∷ []

abbrev empty : FixedBuffer
empty = record { written = [] }

abbrev line : List Item
line = text (97 ∷ []) ∷ integer (negsuc 41) ∷ pointer 31 ∷ bool true ∷ []

-- "a-420x1F1"
logged :
    put_all 4000 no_digits line empty
    ≡ some (record { written = 97 ∷ 45 ∷ 52 ∷ 50 ∷ 48 ∷ 120 ∷ 49 ∷ 70 ∷ 49 ∷ [] })
unfolding put_all put append avail write has_room format_integer format_pointer convert convert_loop
    convert_hex convert_hex_loop zero_at reverse ◌+ℤ◌ ◌-ℤ◌ ◌/ℤ◌ ◌%ℤ◌
logged = refl

convert-reads_example :
    (cs : List ℕ) × (convert (negsuc 41) ≡ some cs)
    × (read_decimal cs ≡ negsuc 41)
    × (length cs ≤ 21)
convert-reads_example = convert-reads (negsuc 41) (omega arith) (omega arith)

put_all-Logs_example :
    (b' : FixedBuffer) × (put_all 4000 no_digits line empty ≡ some b')
    × HasRoom 4000 b'
    × Logs no_digits 4000 (omega arith) (λ v. omega arith) line empty b'
put_all-Logs_example =
    put_all-Logs no_digits 4000 (omega arith) (λ v. omega arith) line empty
      (tt, ((omega arith, omega arith), (omega arith, (tt, tt)))) (omega arith)

-- Quotients rounded without doubles.
abbrev fixed : ℕ → ℕ → ℕ → List ℕ
fixed p s d = decimal p ((2 * (s * 10 ^ p) + d) / (2 * d))

divides :
    (a d m r : ℕ)
    → 2 * d * m + r ≡ 2 * a + d
    → r < 2 * d
    → (2 * (m * d) ≤ 2 * a + d) × (2 * a ≤ 2 * (m * d) + d)
divides a d m r e h = (grind (arith, e), grind (arith, e, h))

fixed-IsFixed : IsFixed fixed
fixed-IsFixed p s d few positive small =
    let x = 2 * (s * 10 ^ p) + d in
    (
      x / (2 * d),
      divides (s * 10 ^ p) d (x / (2 * d)) (x % (2 * d)) (div-add-mod x (2 * d))
          (mod-lt x (omega (arith, positive))),
      λ h. refl,
    )

no_print : ℤ → List ℕ
no_print z = []

format_si-shows_example :
    (12345 < 1000) × (format_si no_print fixed (pos 12345) ≡ no_print (pos 12345))
    ⊎ (1000 ≤ 12345)
      × ((u : ℕ) × (0 < si_value u)
          × Shown (format_si no_print fixed (pos 12345)) (u ∷ []) (si_value u) 12345 999)
format_si-shows_example = format_si-shows no_print fixed fixed-IsFixed 12345 (omega arith)

-- 12.3k, and 1023Ki.
shown_12345 : format_si no_print fixed (pos 12345) ≡ 49 ∷ 50 ∷ 46 ∷ 51 ∷ 107 ∷ []
unfolding format_si format_large
shown_12345 = refl

shown_1048063 : format_iec no_print fixed (pos 1048063) ≡ 49 ∷ 48 ∷ 50 ∷ 51 ∷ 75 ∷ 105 ∷ []
unfolding format_iec format_binary
shown_1048063 = refl

format_iec-shows_example :
    (1048063 < 1024) × (format_iec no_print fixed (pos 1048063) ≡ no_print (pos 1048063))
    ⊎ (1024 ≤ 1048063)
      × ((u : ℕ) × (0 < iec_value u)
          × Shown
              (format_iec no_print fixed (pos 1048063))
              (u ∷ 105 ∷ [])
              (iec_value u)
              1048063
              1023)
format_iec-shows_example = format_iec-shows no_print fixed fixed-IsFixed 1048063 (omega arith)

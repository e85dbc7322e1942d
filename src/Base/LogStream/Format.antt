-- ===== src/Base/LogStream/Format.antt =====
-- server/src/muduo/base/LogStream.cpp: `formatSI` and `formatIEC`.
--
-- `print` is `snprintf` of "%PRId64", and `fixed p s d` is `snprintf` of "%.pf" for the double quotient of `s` and `d`. The bounds
-- of `formatIEC` are doubles in the source, and exact here.
use dxian.Prelude.{ℕ, ◌*◌, List, [], ◌∷◌, ◌++◌, ltb, if◌then◌else◌}
use dxian.Prelude.Int.{ℤ, pos, pos_part, ltb_ℤ}

-- "k", "M", "G", "T", "P" and "E".
unfoldable pub format_large : (fixed : ℕ → ℕ → ℕ → List ℕ) → ℕ → List ℕ
format_large fixed s =
    if ltb s 9995
    then fixed 2 s 1000 ++ 107 ∷ []
    else if ltb s 99950
    then fixed 1 s 1000 ++ 107 ∷ []
    else if ltb s 999500
    then fixed 0 s 1000 ++ 107 ∷ []
    else if ltb s 9995000
    then fixed 2 s 1000000 ++ 77 ∷ []
    else if ltb s 99950000
    then fixed 1 s 1000000 ++ 77 ∷ []
    else if ltb s 999500000
    then fixed 0 s 1000000 ++ 77 ∷ []
    else if ltb s 9995000000
    then fixed 2 s 1000000000 ++ 71 ∷ []
    else if ltb s 99950000000
    then fixed 1 s 1000000000 ++ 71 ∷ []
    else if ltb s 999500000000
    then fixed 0 s 1000000000 ++ 71 ∷ []
    else if ltb s 9995000000000
    then fixed 2 s 1000000000000 ++ 84 ∷ []
    else if ltb s 99950000000000
    then fixed 1 s 1000000000000 ++ 84 ∷ []
    else if ltb s 999500000000000
    then fixed 0 s 1000000000000 ++ 84 ∷ []
    else if ltb s 9995000000000000
    then fixed 2 s 1000000000000000 ++ 80 ∷ []
    else if ltb s 99950000000000000
    then fixed 1 s 1000000000000000 ++ 80 ∷ []
    else if ltb s 999500000000000000
    then fixed 0 s 1000000000000000 ++ 80 ∷ []
    else fixed 2 s 1000000000000000000 ++ 69 ∷ []

unfoldable pub format_si : (print : ℤ → List ℕ) (fixed : ℕ → ℕ → ℕ → List ℕ) → ℤ → List ℕ
format_si print fixed s = if ltb_ℤ s (pos 1000) then print s else format_large fixed (pos_part s)

-- "Ki", "Mi", "Gi", "Ti", "Pi" and "Ei".
unfoldable pub format_binary : (fixed : ℕ → ℕ → ℕ → List ℕ) → ℕ → List ℕ
format_binary fixed s =
    if ltb (1000 * s) (9995 * 1024)
    then fixed 2 s 1024 ++ 75 ∷ 105 ∷ []
    else if ltb (100 * s) (9995 * 1024)
    then fixed 1 s 1024 ++ 75 ∷ 105 ∷ []
    else if ltb (10 * s) (10235 * 1024)
    then fixed 0 s 1024 ++ 75 ∷ 105 ∷ []
    else if ltb (1000 * s) (9995 * 1048576)
    then fixed 2 s 1048576 ++ 77 ∷ 105 ∷ []
    else if ltb (100 * s) (9995 * 1048576)
    then fixed 1 s 1048576 ++ 77 ∷ 105 ∷ []
    else if ltb (10 * s) (10235 * 1048576)
    then fixed 0 s 1048576 ++ 77 ∷ 105 ∷ []
    else if ltb (1000 * s) (9995 * 1073741824)
    then fixed 2 s 1073741824 ++ 71 ∷ 105 ∷ []
    else if ltb (100 * s) (9995 * 1073741824)
    then fixed 1 s 1073741824 ++ 71 ∷ 105 ∷ []
    else if ltb (10 * s) (10235 * 1073741824)
    then fixed 0 s 1073741824 ++ 71 ∷ 105 ∷ []
    else if ltb (1000 * s) (9995 * 1099511627776)
    then fixed 2 s 1099511627776 ++ 84 ∷ 105 ∷ []
    else if ltb (100 * s) (9995 * 1099511627776)
    then fixed 1 s 1099511627776 ++ 84 ∷ 105 ∷ []
    else if ltb (10 * s) (10235 * 1099511627776)
    then fixed 0 s 1099511627776 ++ 84 ∷ 105 ∷ []
    else if ltb (1000 * s) (9995 * 1125899906842624)
    then fixed 2 s 1125899906842624 ++ 80 ∷ 105 ∷ []
    else if ltb (100 * s) (9995 * 1125899906842624)
    then fixed 1 s 1125899906842624 ++ 80 ∷ 105 ∷ []
    else if ltb (10 * s) (10235 * 1125899906842624)
    then fixed 0 s 1125899906842624 ++ 80 ∷ 105 ∷ []
    else if ltb (1000 * s) (9995 * 1152921504606846976)
    then fixed 2 s 1152921504606846976 ++ 69 ∷ 105 ∷ []
    else fixed 1 s 1152921504606846976 ++ 69 ∷ 105 ∷ []

unfoldable pub format_iec : (print : ℤ → List ℕ) (fixed : ℕ → ℕ → ℕ → List ℕ) → ℤ → List ℕ
format_iec print fixed s = if ltb_ℤ s (pos 1024) then print s else format_binary fixed (pos_part s)

-- ===== src/Base/Timestamp/Tests.antt =====
-- The theorems about times at some times.
use dxian.Prelude.{◌≡◌, false, refl}
use dxian.Base.Timestamp.{is_valid, invalid}

not_valid : is_valid invalid ≡ false
unfolding is_valid
not_valid = refl

-- ===== src/Net/Poller.antt =====
-- What the pollers share, server/src/muduo/net/include/Poller.h and Poller.cpp: the outcome of an
-- operation, and the tests on the map `channels_` from descriptors to channels.
pub mod Watch
use dxian.Prelude.{ℕ, Bool, true, false, ◌&&◌, Option, none, some, ◌==◌}
use dxian.Prelude.Int.{ℤ, pos_part, neg_part}

pub data Result {ℓ} (A : Type ℓ) : Type ℓ where
  ok : A → Result A
  -- An assertion fails, or a channel is read that is not there; LOG_SYSFATAL.
  fault fatal : Result A

infixl 5 ◌>>=◌ ◌>>◌
abbrev pub ◌>>=◌ {ℓ κ} : {A : Type ℓ} {B : Type κ} → Result A → (A → Result B) → Result B
ok a >>= f = f a
fault >>= f = fault
fatal >>= f = fatal

abbrev pub ◌>>◌ {ℓ} : {B : Type ℓ} → Result (Unit {0}) → Result B → Result B
m >> k = m >>= λ _. k

abbrev pub ensure : Bool → Result (Unit {0})
ensure true = ok tt
ensure false = fault

abbrev pub deref {ℓ} : {A : Type ℓ} → Option A → Result A
deref none = fault
deref (some a) = ok a

abbrev pub eq_ℤ : ℤ → ℤ → Bool
eq_ℤ a b = (pos_part a == pos_part b) && (neg_part a == neg_part b)

-- The map has no entry, or this one.
abbrev pub is_missing : Option ℕ → Bool
is_missing none = true
is_missing (some p) = false

abbrev pub is_entry : ℕ → Option ℕ → Bool
is_entry p none = false
is_entry p (some r) = r == p

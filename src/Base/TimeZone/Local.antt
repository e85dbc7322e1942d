-- ===== src/Base/TimeZone/Local.antt =====
-- Local time and back, in a zone with any transitions.
use dxian.Prelude.{◌<◌, ◌≡◌, ◌⊎◌, Bool, true, Option, some, none, List, [], ◌∷◌, get_elem?, length}
use dxian.Prelude.Int.{ℤ, ltb_ℤ, ◌≤ℤ◌, ◌+ℤ◌}
use dxian.Base.TimeZone.{Data, Transition, LocalTime, prior_second_of}
use dxian.Base.TimeZone.Zone.{InOrder, In, Typed}

-- The local times of transitions rise too.
abbrev pub Rising : ℤ → List Transition → Type 0
Rising t [] = Unit {0}
Rising t (x ∷ xs) = (ltb_ℤ t x.localtime ≡ true) × Rising x.localtime xs

abbrev pub IsRising : List Transition → Type 0
IsRising [] = Unit {0}
IsRising (x ∷ xs) = Rising x.localtime xs

-- `y` comes right after `x`.
abbrev pub Next : Transition → Transition → List Transition → Type 0
Next x y [] = 0 < 0
Next x y (a ∷ []) = 0 < 0
Next x y (a ∷ b ∷ cs) = ((x ≡ a) × (y ≡ b)) ⊎ Next x y (b ∷ cs)

-- The transition has the local time by its own type.
abbrev pub IsLocal : List LocalTime → Transition → Type 0
IsLocal types x =
    (l : LocalTime)
    → get_elem? types x.localtime_idx ≡ some l
    → x.localtime ≡ x.utctime +ℤ l.utc_offset

-- A zone as `readTimeZoneFile` makes it, with its transitions far enough apart.
pub record IsZone (d : Data) : Type 0 where
  pub ordered : InOrder d.transitions
  pub rising : IsRising d.transitions
  pub typed : Typed (length d.localtimes) d.transitions
  pub locals : (x : Transition) → In x d.transitions → IsLocal d.localtimes x

-- No clock shows `local` at another time than `t`: it is earlier than the local times of the transitions to come, and later than
-- what clocks showed up to those that have been.
pub record Unrepeated (d : Data) (t local : ℤ) : Type 0 where
  pub to_come :
      (x : Transition)
      → In x d.transitions
      → ltb_ℤ t x.utctime ≡ true
      → ltb_ℤ local x.localtime ≡ true
  pub has_been :
      (x y : Transition) (l : LocalTime)
      → Next x y d.transitions
      → get_elem? d.localtimes x.localtime_idx ≡ some l
      → y.utctime ≤ℤ t
      → ltb_ℤ (prior_second_of y l) local ≡ true

module _ (d : Data) (post_transition : Bool) (t : ℤ) (local : LocalTime) where
  abbrev clock : ℤ
  clock = t +ℤ local.utc_offset

  abbrev Prior : Option Transition → Transition → Type 0
  Prior none x = Unit {0}
  Prior (some b) x =
      (l : LocalTime) × (get_elem? d.localtimes b.localtime_idx ≡ some l)
      × (ltb_ℤ (prior_second_of x l) clock ≡ true)

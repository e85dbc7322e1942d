-- ===== src/Net/Poller/Watch.antt =====
-- What a poller promises: from the commands of channels, which descriptors are watched, for which events and
-- for which channel.
use dxian.Prelude.{
  ℕ, ◌≡◌, ◌⊎◌, refl, Bool, true, false, Option, none, some, List, [], ◌∷◌, ◌==◌, if◌then◌else◌,
}
use dxian.Prelude.Int.{negsuc}
use dxian.Net.Channel.{Channel, Events, none_event, is_none}
use dxian.Net.Poller.{Result, ok, ◌>>=◌}

-- A channel, as its owner knows it. It is new until it is registered for the first time.
pub record Card : Type 0 where
  pub fd : ℕ
  pub events : Events
  pub is_new : Bool

pub record Watch : Type 0 where
  pub channels : ℕ → Option ℕ
  pub cards : ℕ → Option Card
  pub interest : ℕ → Option (Events × ℕ)

pub data Command : Type 0 where
  changes : (Events → Events) → ℕ → Command
  removes : ℕ → Command

-- A channel that wants no event is not watched at all, also not for errors and hangups, which the kernel reports unasked.
abbrev pub wanted : Events → ℕ → Option (Events × ℕ)
wanted e p = if is_none e then none else some (e, p)

abbrev pub change_card : (Events → Events) → ℕ → Card → Watch → Watch
change_card f p k s = record {
  channels = λ j. if k.fd == j then some p else s.channels j;
  cards = λ q.
      if p == q
      then some (record { fd = k.fd; events = f k.events; is_new = false })
      else s.cards q;
  interest = λ j. if k.fd == j then wanted (f k.events) p else s.interest j;
}

abbrev pub remove_card : ℕ → Card → Watch → Watch
remove_card p k s = record {
  channels = λ j. if k.fd == j then none else s.channels j;
  cards = λ q. if p == q then some (record k { is_new = false }) else s.cards q;
  interest = λ j. if k.fd == j then none else s.interest j;
}

abbrev pub after : Command → Watch → Watch
after (changes f p) s = elim (s.cards p) [ none ↦ s | some k ↦ change_card f p k s ]
after (removes p) s = elim (s.cards p) [ none ↦ s | some k ↦ remove_card p k s ]

pub after-changes :
    (f : Events → Events) (p : ℕ) (s : Watch) (k : Card)
    → s.cards p ≡ some k
    → after (changes f p) s ≡ change_card f p k s
after-changes f p s k e = rw (e, after) refl

pub after-removes :
    (p : ℕ) (s : Watch) (k : Card) → s.cards p ≡ some k → after (removes p) s ≡ remove_card p k s
after-removes p s k e = rw (e, after) refl

-- A channel is registered first for some event and at a free descriptor, changed while it is registered, but not from no event to
-- no event, and removed when it wants no event any more. After that it is not used again.
abbrev pub Allowed : Command → Watch → Type 0
Allowed (changes f p) s =
    (k : Card) × (s.cards p ≡ some k)
    × (((s.channels k.fd ≡ none) × (k.is_new ≡ true) × (is_none (f k.events) ≡ false))
        ⊎ ((s.channels k.fd ≡ some p)
            × ((is_none k.events ≡ false) ⊎ (is_none (f k.events) ≡ false))))
Allowed (removes p) s =
    (k : Card) × (s.cards p ≡ some k) × (s.channels k.fd ≡ some p) × (k.events ≡ none_event)

abbrev pub after_all : List Command → Watch → Watch
after_all [] s = s
after_all (c ∷ cs) s = after_all cs (after c s)

abbrev pub AllAllowed : List Command → Watch → Type 0
AllAllowed [] s = Unit {0}
AllAllowed (c ∷ cs) s = Allowed c s × AllAllowed cs (after c s)

abbrev pub Known : (ℕ → Option Channel) → ℕ → Card → Type 0
Known objects q k =
    (c : Channel) × (objects q ≡ some c)
    × (c.fd ≡ k.fd)
    × (c.events ≡ k.events)
    × (k.is_new ≡ true → c.index ≡ negsuc 0)

-- The state of a poller, by its objects, its map of channels and what the kernel is asked for, is the abstract one.
pub record Shows (objects : ℕ → Option Channel) (channels : ℕ → Option ℕ)
    (interest : ℕ → Option (Events × ℕ)) (s : Watch) : Type 0 where
  pub cards : (q : ℕ) (k : Card) → s.cards q ≡ some k → Known objects q k
  pub channels_agree : (j : ℕ) → channels j ≡ s.channels j
  pub interest_agree : (j : ℕ) → interest j ≡ s.interest j

-- A poller with states `S`, as a client sees it.
pub record IsPoller (S : Type 0) (run : Command → S → Result S)
    (interest : S → ℕ → Option (Events × ℕ)) (Refines : S → Watch → Type 0) : Type 0 where
  pub obeys :
      (c : Command) (w : S) (s : Watch)
      → Refines w s
      → Allowed c s
      → (w' : S) × (run c w ≡ ok w') × Refines w' (after c s)
  pub asks : (w : S) (s : Watch) → Refines w s → (j : ℕ) → interest w j ≡ s.interest j

unfoldable pub run_all {ℓ} : {S : Type ℓ} → (Command → S → Result S) → List Command → S → Result S
run_all run [] w = ok w
run_all run (c ∷ cs) w = run c w >>= run_all run cs

module _ {S : Type 0} {run : Command → S → Result S} {interest : S → ℕ → Option (Events × ℕ)}
    {Refines : S → Watch → Type 0} (poller : IsPoller S run interest Refines) where
  pub run_all-Refines :
      (cs : List Command) (w : S) (s : Watch)
      → Refines w s
      → AllAllowed cs s
      → (w' : S) × (run_all run cs w ≡ ok w') × Refines w' (after_all cs s)
  unfolding run_all
  run_all-Refines [] w s r a = (w, refl, r)
  run_all-Refines (c ∷ cs) w s r a =
      let (w1, e1, r1) = poller.obeys c w s r a.0 in
      let (w2, e2, r2) = run_all-Refines cs w1 (after c s) r1 a.1 in (w2, rw e1 e2, r2)

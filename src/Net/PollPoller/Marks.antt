-- ===== src/Net/PollPoller/Marks.antt =====
-- `fillActiveChannels`: the channels that are marked with received events.
use dxian.Prelude.{
  ℕ, zero, suc, ◌≡◌, ◌≢◌, ◌⊎◌, inl, inr, refl, sym, ◌∙◌, ap, subst, true, false, Option, none, some,
  List, [], ◌∷◌, ◌++◌, arith, Bool-cases, ◌==◌, if◌then◌else◌, get_elem?, append_assoc, append-nil,
}
use dxian.Prelude.Int.{ℤ, pos}
use dxian.Net.Store.{find, put, find-put}
use dxian.Net.Poller.{ok, eq_ℤ}
use dxian.Net.Channel.{Channel, Events}
use dxian.Net.PollPoller.{PollPoller, PollFd, received, find_fd, fill_active_channels}

-- What poll(2) leaves in the array: the descriptors and the events asked for are as before, and nothing is received for a

abbrev reported_by : Option ℕ → List ℕ → List ℕ
reported_by none ps = ps
reported_by (some p) ps = p ∷ ps

-- The channels of the descriptors with received events, in order.
abbrev pub reported : List PollFd → List (ℕ × ℕ) → List ℕ
reported [] m = []
reported (x ∷ xs) m =
    if received x then reported_by (find_fd x.fd m) (reported xs m) else reported xs m

-- A descriptor that received events has a channel.
abbrev pub Live : List (ℕ × Channel) → List (ℕ × ℕ) → PollFd → Type 0
Live objects m x =
    (p : ℕ) × (c : Channel) × (find_fd x.fd m ≡ some p)
    × (find p objects ≡ some c)
    × (pos c.fd ≡ x.fd)

abbrev pub Reports : List PollFd → List (ℕ × ℕ) → ℕ → Type 0
Reports xs m q =
    (i : ℕ) × (x : PollFd) × (get_elem? xs i ≡ some x)
    × (received x ≡ true)
    × (find_fd x.fd m ≡ some q)

-- A channel changes in its received events at most.
abbrev pub Keeps : List (ℕ × Channel) → List (ℕ × Channel) → Type 0
Keeps before after =
    (q : ℕ) (c : Channel)
    → find q before ≡ some c
    → (r : Events) × (find q after ≡ some (record c { revents = r }))

-- Every channel that is reported has the received events of its descriptor, and the other channels stay.
pub record Marks (xs : List PollFd) (m : List (ℕ × ℕ)) (before after : List (ℕ × Channel))
    : Type 0 where
  pub marked :
      (i p : ℕ) (x : PollFd) (c : Channel)
      → get_elem? xs i ≡ some x
      → received x ≡ true
      → find_fd x.fd m ≡ some p
      → find p before ≡ some c
      → find p after ≡ some (record c { revents = x.revents })
  pub others : (q : ℕ) → ¬ (Reports xs m q) → find q after ≡ find q before
  pub kept : Keeps before after

-- Different places have different channels.
abbrev pub Separate : List PollFd → List (ℕ × ℕ) → Type 0
Separate xs m =
    (i j p : ℕ) (x y : PollFd)
    → get_elem? xs i ≡ some x
    → get_elem? xs j ≡ some y
    → find_fd x.fd m ≡ some p
    → find_fd y.fd m ≡ some p
    → i ≡ j

unfoldable pub Filled : List PollFd → PollPoller → List ℕ → Type 0
Filled xs w active =
    (after : List (ℕ × Channel)) × (fill_active_channels xs w active
      ≡ ok (record w { objects = after }, active ++ reported xs w.channels))
    × Marks xs w.channels w.objects after

eq_ℤ-refl : (a b : ℤ) → a ≡ b → eq_ℤ a b ≡ true
eq_ℤ-refl a b e = ground (arith, e)

zero_or_suc : (i : ℕ) → (i ≡ zero) ⊎ ((j : ℕ) × (suc j ≡ i))
zero_or_suc zero = inl refl
zero_or_suc (suc j) = inr (j, refl)

module _ (x : PollFd) (xs : List PollFd) (m : List (ℕ × ℕ)) where
  -- The channel of the head is not that of another place.
  apart_head :
      (i p : ℕ) (y : PollFd)
      → Separate (x ∷ xs) m
      → find_fd x.fd m ≡ some p
      → get_elem? xs i ≡ some y
      → find_fd y.fd m ≡ some p
      → ⊥
  apart_head i p y sep fd at own =
      let e : zero ≡ suc i = sep zero (suc i) p x y refl at fd own in omega arith

  -- The head is marked, and then the rest.
  mark_head :
      (objects after : List (ℕ × Channel)) (p : ℕ) (c : Channel)
      → Separate (x ∷ xs) m
      → received x ≡ true
      → find_fd x.fd m ≡ some p
      → find p objects ≡ some c
      → Marks xs m (put p (record c { revents = x.revents }) objects) after
      → Marks (x ∷ xs) m objects after
  mark_head objects after p c sep got fd alive k =
      let c' : Channel = record c { revents = x.revents } in
      let here : find p after ≡ some c' =
        k.others p (λ (i, y, at, got', own). apart_head i p y sep fd at own)
        ∙ ground (arith, find-put p p c' objects) in
      record {
        marked = λ i q y d at got' own alive'. elim (zero_or_suc i) [
          | inl first ↦ ground (arith, here, at, first, own, fd, alive, alive')
          | inr (j, next) ↦
              let at' : get_elem? xs j ≡ some y =
                subst (λ n. get_elem? (x ∷ xs) n ≡ some y) (sym next) at in
              let other : p ≢ q = λ e. apart_head j p y sep fd at' (rw e own) in
              k.marked j q y d at' got' own (ground (arith, find-put p q c' objects, other, alive'))
        ];
        others = λ q absent.
            let other : p ≢ q = λ e. absent (zero, x, refl, got, rw (← e) fd) in
            k.others q (λ (i, y, at, got', own). absent (suc i, y, at, got', own))
            ∙ ground (arith, find-put p q c' objects, other);
        kept = λ q d alive'. elim (Bool-cases (p == q)) [
          | inl h ↦ (x.revents, ground (arith, here, h, alive, alive'))
          | inr h ↦ k.kept q d (ground (arith, find-put p q c' objects, h, alive'))
        ];
      }

  skip_head :
      (objects after : List (ℕ × Channel))
      → received x ≡ false
      → Marks xs m objects after
      → Marks (x ∷ xs) m objects after
  skip_head objects after quiet k = record {
    marked = λ i q y d at got own alive. elim (zero_or_suc i) [
      | inl first ↦
          let same : x ≡ y = ground (arith, at, first) in
          absurd (ground (arith, ap received same, got, quiet))
      | inr (j, next) ↦
          k.marked j q y d (subst (λ n. get_elem? (x ∷ xs) n ≡ some y) (sym next) at) got own alive
    ];
    others = λ q absent. k.others q (λ (i, y, at, got, own). absent (suc i, y, at, got, own));
    kept = k.kept;
  }

tail-Separate :
    (x : PollFd) (xs : List PollFd) (m : List (ℕ × ℕ)) → Separate (x ∷ xs) m → Separate xs m
tail-Separate x xs m sep i j p y z at at' own own' =
    let e = sep (suc i) (suc j) p y z at at' own own' in omega arith

-- What is live stays so when another event is received.
put-Live :
    (objects : List (ℕ × Channel)) (m : List (ℕ × ℕ)) (x : PollFd) (p : ℕ) (c : Channel)
    (r : Events)
    → find p objects ≡ some c
    → Live objects m x
    → Live (put p (record c { revents = r }) objects) m x
put-Live objects m x p c r alive (q, d, mapped, alive', fd) = elim (Bool-cases (p == q)) [
  | inl h ↦ (
    q,
    record c { revents = r },
    mapped,
    ground (arith, find-put p q (record c { revents = r }) objects, h),
    ground (arith, h, alive, alive', fd),
  )
  | inr h ↦
      (q, d, mapped, ground (arith, find-put p q (record c { revents = r }) objects, h, alive'), fd)
]

pub fill-Marks :
    (xs : List PollFd) (w : PollPoller) (active : List ℕ)
    → Separate xs w.channels
    → ((i : ℕ) (x : PollFd)
        → get_elem? xs i ≡ some x
        → received x ≡ true
        → Live w.objects w.channels x)
    → Filled xs w active
unfolding Filled fill_active_channels
fill-Marks [] w active sep live = (
  w.objects,
  rw (append-nil active) refl,
  record {
    marked = λ i p x c e. absurd (ground arith);
    others = λ q h. refl;
    kept = λ q c e. (c.revents, e);
  },
)
fill-Marks (x ∷ xs) w active sep live = elim (Bool-cases (received x)) [
  | inl h ↦
      let (p, c, mapped, alive, fd) = live zero x refl h in
      let w1 : PollPoller = record w {
        objects = put p (record c { revents = x.revents }) w.objects;
      } in
      let (after, done, k) =
        fill-Marks xs w1 (active ++ p ∷ []) (tail-Separate x xs w.channels sep) (λ i y at got.
          put-Live w.objects w.channels y p c x.revents alive (live (suc i) y at got)) in
      (
        after,
        rw (h, mapped, alive, eq_ℤ-refl (pos c.fd) x.fd fd, done)
            (rw (append_assoc active (p ∷ []) (reported xs w.channels)) refl),
        mark_head x xs w.channels w.objects after p c sep h mapped alive k,
      )
  | inr h ↦
      let (after, done, k) =
        fill-Marks xs w active (tail-Separate x xs w.channels sep) (λ i y e. live (suc i) y e) in
      (after, rw (h, done) refl, skip_head x xs w.channels w.objects after h k)
]

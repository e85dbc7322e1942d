-- ===== src/Net/PollPoller/Invariant.antt =====
-- A registered channel's index is the place of its descriptor in `pollfds_`, and every place there is
-- that of a registered channel.
use dxian.Prelude.{
  get_elem?-lt, ℕ, ◌≡◌, ◌≢◌, ◌⊎◌, inl, inr, sym, ◌∙◌, Option, none, some, arith, Bool-cases, ◌==◌,
  if◌then◌else◌, length, get_elem?,
}
use dxian.Prelude.Int.{ℤ, pos, negsuc}
use dxian.Net.Store.{find}
use dxian.Net.Channel.{Channel, is_none_event}
use dxian.Net.PollPoller.{PollPoller, PollFd, descriptor}

-- The descriptor that is written for a channel: it is ignored if no event is wanted.
abbrev pub fd_of : Channel → ℤ
fd_of c = if is_none_event c then negsuc c.fd else pos c.fd

pub record Fits (c : Channel) (slot : PollFd) : Type 0 where
  pub events : slot.events ≡ c.events
  pub slot_fd : slot.fd ≡ fd_of c

pub record Placed (w : PollPoller) (fd p : ℕ) : Type 0 where
  pub chan : Channel
  pub alive : find p w.objects ≡ some chan
  pub same_fd : chan.fd ≡ fd
  pub place : ℕ
  pub index : chan.index ≡ pos place
  pub slot : PollFd
  pub at : get_elem? w.pollfds place ≡ some slot
  pub fits : Fits chan slot

pub record Owned (w : PollPoller) (i : ℕ) (slot : PollFd) : Type 0 where
  pub owner : ℕ
  pub chan : Channel
  pub mapped : find (descriptor slot.fd) w.channels ≡ some owner
  pub alive : find owner w.objects ≡ some chan
  pub index : chan.index ≡ pos i

pub record Inv (w : PollPoller) : Type 0 where
  pub placed : (fd p : ℕ) → find fd w.channels ≡ some p → Placed w fd p
  pub owned : (i : ℕ) (slot : PollFd) → get_elem? w.pollfds i ≡ some slot → Owned w i slot

pub descriptor-Fits : (c : Channel) (slot : PollFd) → Fits c slot → descriptor slot.fd ≡ c.fd
descriptor-Fits c slot f = ground (arith, f.slot_fd)

pub some-injective {ℓ} : {A : Type ℓ} {o : Option A} {a b : A} → o ≡ some a → o ≡ some b → a ≡ b
some-injective e f = cc

-- The place determines the descriptor.
pub same_place :
    (w : PollPoller) (fd fd' p p' : ℕ) (m : Placed w fd p) (m' : Placed w fd' p')
    → m.place ≡ m'.place
    → fd ≡ fd'
same_place w fd fd' p p' m m' e =
    let same : m.slot ≡ m'.slot = some-injective m.at (rw e m'.at) in
    sym (descriptor-Fits m.chan m.slot m.fits ∙ m.same_fd)
    ∙ (rw same (descriptor-Fits m'.chan m'.slot m'.fits ∙ m'.same_fd))

-- An address has one descriptor.
pub same_address : (w : PollPoller) (fd fd' p : ℕ) → Placed w fd p → Placed w fd' p → fd ≡ fd'
same_address w fd fd' p m m' = sym m.same_fd ∙ (ground (arith, m.alive, m'.alive, m'.same_fd))

-- Only the channel `p`, now `c'`, its descriptor's place in the map and one place of `pollfds_` change.
pub record Registers (w w' : PollPoller) (p n : ℕ) (c' : Channel) (slot : PollFd) : Type 0 where
  pub objects : (j : ℕ) → find j w'.objects ≡ (if p == j then some c' else find j w.objects)
  pub channels : (j : ℕ) → find j w'.channels ≡ (if c'.fd == j then some p else find j w.channels)
  pub pollfds :
      (i : ℕ) → get_elem? w'.pollfds i ≡ (if n == i then some slot else get_elem? w.pollfds i)

-- The channel is not registered and the place is the next one, or the place is its own.
abbrev pub MayTake : PollPoller → ℕ → ℕ → Channel → Type 0
MayTake w p n c =
    ((find c.fd w.channels ≡ none) × (n ≡ length w.pollfds) × (c.index ≡ negsuc 0))
    ⊎ ((find c.fd w.channels ≡ some p) × (c.index ≡ pos n))

module _ (w w' : PollPoller) (p n : ℕ) (c c' : Channel) (slot : PollFd) (inv : Inv w)
    (alive : find p w.objects ≡ some c) (fd : c'.fd ≡ c.fd) (index : c'.index ≡ pos n)
    (fits : Fits c' slot) (may : MayTake w p n c) (r : Registers w w' p n c' slot) where
  -- A channel at another descriptor is another one, at another place.
  apart : (j q : ℕ) (m : Placed w j q) → j ≢ c.fd → q ≢ p
  apart j q m d same = d (ground (arith, m.alive, m.same_fd, same, alive))

  not_there : (j q : ℕ) (m : Placed w j q) → j ≢ c.fd → m.place ≢ n
  not_there j q m d e = elim may [
    | inl (free, last, new) ↦ let l = get_elem?-lt w.pollfds m.place m.slot m.at in omega arith
    | inr (mapped, own) ↦
        let k = inv.placed c.fd p mapped in
        let same : m.place ≡ k.place = ground (arith, k.alive, k.index, alive, own, e) in
        d (same_place w j c.fd q p m k same)
  ]

  -- The owner of another place has another descriptor.
  other_fd : (i : ℕ) (s : PollFd) (o : Owned w i s) → i ≢ n → descriptor s.fd ≢ c.fd
  other_fd i s o d e = elim may [
    | inl (free, last, new) ↦ ground (arith, o.mapped, free, e)
    | inr (mapped, own) ↦
        let same : o.owner ≡ p = ground (arith, o.mapped, mapped, e) in
        d (ground (arith, o.alive, o.index, alive, own, same))
  ]

  pub registered-Inv : Inv w'
  registered-Inv = record {
    placed = λ j q e. elim (Bool-cases (c'.fd == j)) [
      | inl h ↦
          let same : q ≡ p = ground (arith, r.channels j, e, h) in
          record {
            chan = c';
            alive = ground (arith, r.objects q, same);
            same_fd = ground arith;
            place = n;
            index = index;
            slot = slot;
            at = ground (arith, r.pollfds n);
            fits = fits;
          }
      | inr h ↦
          let old : find j w.channels ≡ some q = ground (arith, r.channels j, e, h) in
          let m = inv.placed j q old in
          let d : j ≢ c.fd = λ s. ground (arith, s, h, fd) in
          let other = apart j q m d in
          let place = not_there j q m d in
          record {
            chan = m.chan;
            alive = ground (arith, r.objects q, other, m.alive);
            same_fd = m.same_fd;
            place = m.place;
            index = m.index;
            slot = m.slot;
            at = ground (arith, r.pollfds m.place, place, m.at);
            fits = m.fits;
          }
    ];
    owned = λ i s e. elim (Bool-cases (n == i)) [
      | inl h ↦
          let same : s ≡ slot = some-injective e (ground (arith, r.pollfds i, h)) in
          let d : descriptor s.fd ≡ c'.fd = rw same (descriptor-Fits c' slot fits) in
          record {
            owner = p;
            chan = c';
            mapped = ground (arith, r.channels (descriptor s.fd), d);
            alive = ground (arith, r.objects p);
            index = ground (arith, index, h);
          }
      | inr h ↦
          let old : get_elem? w.pollfds i ≡ some s = ground (arith, r.pollfds i, e, h) in
          let o = inv.owned i s old in
          let d = other_fd i s o (λ s. ground (arith, s, h)) in
          let other =
            apart (descriptor s.fd) o.owner (inv.placed (descriptor s.fd) o.owner o.mapped) d in
          record {
            owner = o.owner;
            chan = o.chan;
            mapped = ground (arith, r.channels (descriptor s.fd), d, fd, o.mapped);
            alive = ground (arith, r.objects o.owner, other, o.alive);
            index = o.index;
          }
    ];
  }

-- ===== src/Net/PollPoller/Swap.antt =====
-- The end of `removeChannel`, by the place of the descriptor to remove.
use dxian.Prelude.{
  get_elem?-lt, ℕ, suc, ◌-◌, ◌≡◌, ◌≢◌, inl, inr, refl, ◌∙◌, false, none, some, List, arith,
  Bool-cases, ◌==◌, if◌then◌else◌, length, get_elem?, set,
}
use dxian.Prelude.Int.{pos, negsuc}
use dxian.Net.Store.{find, put, drop_key, find-put, find-drop_key}
use dxian.Net.Poller.{ok, eq_ℤ}
use dxian.Net.Channel.{Channel}
use dxian.Net.PollPoller.{PollPoller, PollFd, descriptor, set_index, swap_out}
use dxian.Net.PollPoller.Vector.{pop_back, get_elem?-set, get_elem?-pop_back, length-set}
use dxian.Net.PollPoller.Invariant.{Inv, Placed, Owned, same_place, same_address}
use dxian.Net.PollPoller.SwapOut.{SwapsOut, moved, removed-Inv}

-- Another channel keeps its descriptor and its events, and stays new if it is.
abbrev pub Stays : PollPoller → ℕ → Channel → Type 0
Stays w' q d =
    (d' : Channel) × (find q w'.objects ≡ some d')
    × (d'.fd ≡ d.fd)
    × (d'.events ≡ d.events)
    × (d.index ≡ negsuc 0 → d'.index ≡ negsuc 0)

pub record Removes (w w' : PollPoller) (p : ℕ) (c : Channel) : Type 0 where
  pub channels : (j : ℕ) → find j w'.channels ≡ (if c.fd == j then none else find j w.channels)
  pub removed : find p w'.objects ≡ some (record c { added_to_loop = false })
  pub others : (q : ℕ) (d : Channel) → q ≢ p → find q w.objects ≡ some d → Stays w' q d

module _ (w : PollPoller) (p : ℕ) (c : Channel) (inv : Inv w) (alive : find p w.objects ≡ some c)
    (mapped : find c.fd w.channels ≡ some p) (m : Placed w c.fd p) (last : ℕ)
    (size : length w.pollfds ≡ suc last) where
  -- The state when `swap_out` is called.
  abbrev erased : PollPoller
  erased = record w {
    channels = drop_key c.fd w.channels;
    objects = put p (record c { added_to_loop = false }) w.objects;
  }

  abbrev pub Swapped : Type 0
  Swapped =
      (w' : PollPoller) × (swap_out (pos m.place) m.slot erased ≡ ok w') × Inv w' × Removes w w' p c

  in_place : (d : Channel) → moved last last d ≡ d
  in_place d = ground arith

  pub swap_last : m.place ≡ last → Swapped
  unfolding swap_out
  swap_last e =
      let c1 : Channel = record c { added_to_loop = false } in
      let w' : PollPoller = record erased { pollfds = pop_back w.pollfds } in
      let r : SwapsOut w w' p c.fd m.place last m.slot = record {
        channels = λ j. find-drop_key c.fd j w.channels;
        pollfds = λ i. ground (arith, get_elem?-pop_back w.pollfds i, size, e);
        others = λ q j d other at alive'.
            rw e (ground (arith, find-put p q c1 w.objects, other, alive', in_place d));
      } in
      (
        w',
        ground (arith, e, size),
        removed-Inv w w' p c.fd last m.slot inv mapped m size (ground (arith, m.at, e)) r,
        record {
          channels = r.channels;
          removed = ground (arith, find-put p p c1 w.objects);
          others = λ q d other at.
              (d, ground (arith, find-put p q c1 w.objects, other, at), refl, refl, λ x. x);
        },
      )

  module _ (back : PollFd) (at_back : get_elem? w.pollfds last ≡ some back)
      (inside : m.place ≢ last) (owner : Owned w last back) where
    other_fd : descriptor back.fd ≢ c.fd
    other_fd e =
        let same : owner.owner ≡ p = ground (arith, owner.mapped, mapped, e) in
        inside (ground (arith, owner.alive, owner.index, m.alive, m.index, same))

    other_owner : owner.owner ≢ p
    other_owner e = other_fd (
        same_address w (descriptor back.fd) c.fd p
          (rw (← e) (inv.placed (descriptor back.fd) owner.owner owner.mapped)) m)

    -- A registered channel that is not the owner of the last place is not at the last place.
    elsewhere :
        (q j : ℕ) (d : Channel)
        → find j w.channels ≡ some q
        → find q w.objects ≡ some d
        → q ≢ owner.owner
        → moved last m.place d ≡ d
    elsewhere q j d at alive' e =
        let k = inv.placed j q at in
        let place : k.place ≢ last = λ x. e (
          let o = inv.placed (descriptor back.fd) owner.owner owner.mapped in
          let there : o.place ≡ k.place =
            ground (arith, o.alive, owner.alive, owner.index, o.index, x) in
          let same = same_place w (descriptor back.fd) j owner.owner q o k there in
          ground (arith, owner.mapped, at, same)) in
        let index : d.index ≡ pos k.place = ground (arith, k.alive, alive', k.index) in
        ground (arith, index, place)

    abbrev c1 : Channel
    c1 = record c { added_to_loop = false }

    abbrev o1 : List (ℕ × Channel)
    o1 = put p c1 w.objects

    abbrev back_chan : Channel
    back_chan = record owner.chan { index = pos m.place }

    abbrev fds : List PollFd
    fds = set (set w.pollfds m.place back) last m.slot

    abbrev after : PollPoller
    after = record {
      pollfds = pop_back fds;
      channels = drop_key c.fd w.channels;
      objects = put owner.owner back_chan o1;
    }

    after-find :
        (q : ℕ) (d : Channel)
        → q ≢ p
        → find q w.objects ≡ some d
        → find q after.objects ≡ some (if owner.owner == q then back_chan else d)
    after-find q d other at =
        ground (arith, find-put owner.owner q back_chan o1, find-put p q c1 w.objects, other, at)

    after-get :
        (i : ℕ)
        → get_elem? after.pollfds i
          ≡ (if i == last then none else if m.place == i then some back else get_elem? w.pollfds i)
    after-get i =
        let low = get_elem?-lt w.pollfds m.place m.slot m.at in
        let len : length fds ≡ suc last =
          length-set (set w.pollfds m.place back) last m.slot
          ∙ (length-set w.pollfds m.place back ∙ size) in
        rw
          (
            get_elem?-pop_back fds i,
            len,
            get_elem?-set (set w.pollfds m.place back) last i m.slot
                (omega (arith, size, length-set w.pollfds m.place back)),
            get_elem?-set w.pollfds m.place i back low,
          )
          (ground arith)

    after-eq : swap_out (pos m.place) m.slot erased ≡ ok after
    unfolding swap_out set_index
    after-eq =
        let last_place : length w.pollfds - 1 ≡ last = omega (arith, size) in
        let mapped' : find (descriptor back.fd) (drop_key c.fd w.channels) ≡ some owner.owner =
          ground
            (arith, find-drop_key c.fd (descriptor back.fd) w.channels, other_fd, owner.mapped) in
        let alive' : find owner.owner o1 ≡ some owner.chan =
          ground (arith, find-put p owner.owner c1 w.objects, other_owner, owner.alive) in
        let no : eq_ℤ (pos m.place) (pos last) ≡ false = ground (arith, inside) in
        rw (last_place, no, at_back) (rw (mapped') (rw alive' refl))

    after-SwapsOut : SwapsOut w after p c.fd m.place last back
    after-SwapsOut = record {
      channels = λ j. find-drop_key c.fd j w.channels;
      pollfds = after-get;
      others = λ q j d other at alive'. elim (Bool-cases (owner.owner == q)) [
        | inl h ↦ ground (arith, after-find q d other alive', h, owner.alive, owner.index, alive')
        | inr h ↦ ground (
          arith,
          after-find q d other alive',
          h,
          elsewhere q j d at alive' (λ e. ground (arith, h, e)),
        )
      ];
    }

    after-Stays : (q : ℕ) (d : Channel) → q ≢ p → find q w.objects ≡ some d → Stays after q d
    after-Stays q d other at = elim (Bool-cases (owner.owner == q)) [
      | inl h ↦ (
        back_chan,
        ground (arith, after-find q d other at, h),
        ground (arith, h, owner.alive, at),
        ground (arith, h, owner.alive, at),
        λ x. ground (arith, h, owner.alive, at, owner.index, x),
      )
      | inr h ↦ (d, ground (arith, after-find q d other at, h), refl, refl, λ x. x)
    ]

    pub swap_inside : Swapped
    swap_inside = (
      after,
      after-eq,
      removed-Inv w after p c.fd last back inv mapped m size at_back after-SwapsOut,
      record {
        channels = after-SwapsOut.channels;
        removed =
            ground
              (arith, find-put owner.owner p back_chan o1, find-put p p c1 w.objects, other_owner);
        others = after-Stays;
      },
    )

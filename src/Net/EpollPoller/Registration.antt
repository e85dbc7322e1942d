-- ===== src/Net/EpollPoller/Registration.antt =====
-- `enableReading` and its like, and `remove`, through `updateChannel` and `removeChannel`.
use dxian.Prelude.{
  ℕ, ◌≡◌, inl, inr, refl, Bool, true, false, ◌&&◌, not, Option, none, some, List, arith, Bool-cases,
  ◌==◌, if◌then◌else◌,
}
use dxian.Net.Store.{find, put, drop_key, find-put, find-drop_key}
use dxian.Net.Channel.{Channel, Events, none_event, is_none_event}
use dxian.Net.EpollPoller.{
  EpollPoller, Op, ok, ◌>>=◌, add, mod_events, del, new_index, added_index, deleted_index, eq_ℤ,
  update, set_index, update_channel, remove_channel, change_events, remove, has_channel, is_entry,
}
use dxian.Net.EpollPoller.Invariant.{IsEpoll, Inv, MayUse, Rewires, registered-Inv, removed-Inv}

-- The channel after the change of its events to `e`, and its entry in the interest list. An added
-- channel whose last event goes is deleted from the list; any other channel is in the list.
abbrev leaves : Channel → Events → Bool
leaves c e =
    eq_ℤ c.index added_index && is_none_event (record c { events = e; added_to_loop = true })

abbrev pub changed : Channel → Events → Channel
changed c e = record c {
  events = e;
  added_to_loop = true;
  index = if leaves c e then deleted_index else added_index;
}

abbrev pub entry : Channel → ℕ → Events → Option (Events × ℕ)
entry c p e = if leaves c e then none else some (e, p)

none-eq : (c : Channel) → is_none_event c ≡ true → c.events ≡ none_event
unfolding is_none_event
none-eq c h = ground arith

is_entry-some : (p : ℕ) (o : Option ℕ) → is_entry p o ≡ true → o ≡ some p
is_entry-some p none h = ground arith
is_entry-some p (some r) h = ground arith

module _ {K : Type 0} (epoll_ctl : Op → ℕ → Events → ℕ → K → K × Bool)
    (view : K → ℕ → Option (Events × ℕ)) (laws : IsEpoll epoll_ctl view) where
  change_new :
      (w : EpollPoller K) (p : ℕ) (c : Channel) (e : Events) (m : List (ℕ × ℕ))
      → find p w.objects ≡ some c
      → view w.kernel c.fd ≡ none
      → ((j : ℕ) → find j m ≡ (if c.fd == j then some p else find j w.channels))
      → (w' : EpollPoller K) × ((set_index epoll_ctl p added_index (record w {
        channels = m;
        objects = put p (record c { events = e; added_to_loop = true }) w.objects;
      })
            >>= update epoll_ctl add p)
          ≡ ok w')
        × Rewires view w w' p
            (record c { events = e; added_to_loop = true; index = added_index })
            (some p)
            (some (e, p))
  unfolding set_index update
  change_new w p c e m alive out at =
      let c1 : Channel = record c { events = e; added_to_loop = true } in
      let c2 : Channel = record c { events = e; added_to_loop = true; index = added_index } in
      let o1 = put p c1 w.objects in
      let o2 = put p c2 o1 in
      let (done, entries) = laws.adds c.fd e p w.kernel out in
      (
        record w { channels = m; objects = o2; kernel = (epoll_ctl add c.fd e p w.kernel).0 },
        ground (arith, find-put p p c1 w.objects, find-put p p c2 o1, done),
        record {
          objects = λ j. ground (arith, find-put p j c1 w.objects, find-put p j c2 o1);
          channels = at;
          entries = entries;
        },
      )

  change_added :
      (w : EpollPoller K) (p : ℕ) (c : Channel) (e : Events) (x : Events × ℕ)
      → find p w.objects ≡ some c
      → view w.kernel c.fd ≡ some x
      → find c.fd w.channels ≡ some p
      → (w' : EpollPoller K) × (update epoll_ctl mod_events p
            (record w { objects = put p (record c { events = e; added_to_loop = true }) w.objects })
          ≡ ok w')
        × Rewires view w w' p (record c { events = e; added_to_loop = true }) (some p) (some (e, p))
  unfolding update
  change_added w p c e x alive watched mapped =
      let c1 : Channel = record c { events = e; added_to_loop = true } in
      let (done, entries) = laws.mods c.fd e p w.kernel x watched in
      (
        record w {
          objects = put p c1 w.objects;
          kernel = (epoll_ctl mod_events c.fd e p w.kernel).0;
        },
        ground (arith, find-put p p c1 w.objects, done),
        record {
          objects = λ j. find-put p j c1 w.objects;
          channels = λ j. ground (arith, mapped);
          entries = entries;
        },
      )

  change_none :
      (w : EpollPoller K) (p : ℕ) (c : Channel) (e : Events) (x : Events × ℕ)
      → find p w.objects ≡ some c
      → view w.kernel c.fd ≡ some x
      → find c.fd w.channels ≡ some p
      → (w' : EpollPoller K) × ((update epoll_ctl del p (record w {
        objects = put p (record c { events = e; added_to_loop = true }) w.objects;
      })
            >>= set_index epoll_ctl p deleted_index)
          ≡ ok w')
        × Rewires view w w' p
            (record c { events = e; added_to_loop = true; index = deleted_index })
            (some p)
            none
  unfolding update set_index
  change_none w p c e x alive watched mapped =
      let c1 : Channel = record c { events = e; added_to_loop = true } in
      let c2 : Channel = record c { events = e; added_to_loop = true; index = deleted_index } in
      let o1 = put p c1 w.objects in
      let (done, entries) = laws.dels c.fd e p w.kernel x watched in
      (
        record w { objects = put p c2 o1; kernel = (epoll_ctl del c.fd e p w.kernel).0 },
        ground (arith, find-put p p c1 w.objects, done),
        record {
          objects = λ j. ground (arith, find-put p j c1 w.objects, find-put p j c2 o1);
          channels = λ j. ground (arith, mapped);
          entries = entries;
        },
      )

  follows :
      {w w' : EpollPoller K} {p : ℕ} {a b : Channel} {u v : Option (Events × ℕ)}
      → a ≡ b
      → u ≡ v
      → Rewires view w w' p b (some p) v
      → Rewires view w w' p a (some p) u
  follows e1 e2 r = rw (e1, e2) r

  -- A change of the events of a channel, when its descriptor is free or its own, succeeds and keeps the
  -- invariant. The kernel's entry follows the channel's events, and no other channel or entry changes.
  pub change_events-Rewires :
      (change : Events → Events) (w : EpollPoller K) (p : ℕ) (c : Channel)
      → Inv view w
      → find p w.objects ≡ some c
      → MayUse view w p c
      → (w' : EpollPoller K) × (change_events epoll_ctl change p w ≡ ok w')
        × Inv view w'
        × Rewires view w w' p (changed c (change c.events)) (some p) (entry c p (change c.events))
  unfolding change_events update_channel
  change_events-Rewires change w p c inv alive (inl (new, free)) =
      let e = change c.events in
      let c1 : Channel = record c { events = e; added_to_loop = true } in
      let (w', r, rew) =
        change_new w p c e (put c.fd p w.channels) alive (inv.unmapped c.fd free)
          (λ j. find-put c.fd j p w.channels) in
      (
        w',
        ground (arith, alive, find-put p p c1 w.objects, new, free, r),
        registered-Inv view w w' p c _ inv alive refl (inl (new, free)) (some (e, p)) rew
            (inl (refl, refl)),
        follows (ground (arith, new)) (ground (arith, new)) rew,
      )
  change_events-Rewires change w p c inv alive (inr mapped) =
      let e = change c.events in
      let c1 : Channel = record c { events = e; added_to_loop = true } in
      let m = inv.mapped c.fd p mapped in
      let same : m.chan ≡ c = ground (arith, m.alive, alive) in
      elim m.watches [
        | inl (at, watched) ↦ elim (Bool-cases (is_none_event c1)) [
          | inl empty ↦
              let index : c.index ≡ added_index = ground (arith, at, same) in
              let (w', r, rew) = change_none w p c e _ alive watched mapped in
              (
                w',
                ground (arith, alive, find-put p p c1 w.objects, index, mapped, empty, r),
                registered-Inv view w w' p c _ inv alive refl (inr mapped) none rew
                    (inr (refl, none-eq c1 empty, refl)),
                follows (ground (arith, index, empty)) (ground (arith, index, empty)) rew,
              )
          | inr some_event ↦
              let index : c.index ≡ added_index = ground (arith, at, same) in
              let (w', r, rew) = change_added w p c e _ alive watched mapped in
              (
                w',
                ground (arith, alive, find-put p p c1 w.objects, index, mapped, some_event, r),
                registered-Inv view w w' p c _ inv alive refl (inr mapped) (some (e, p)) rew
                    (inl (index, refl)),
                follows (ground (arith, index, some_event)) (ground (arith, index, some_event)) rew,
              )
        ]
        | inr (at, _, out) ↦
            let index : c.index ≡ deleted_index = ground (arith, at, same) in
            let (w', r, rew) =
              change_new w p c e w.channels alive out (λ j. ground (arith, mapped)) in
            (
              w',
              ground (arith, alive, find-put p p c1 w.objects, index, mapped, r),
              registered-Inv view w w' p c _ inv alive refl (inr mapped) (some (e, p)) rew
                  (inl (refl, refl)),
              follows (ground (arith, index)) (ground (arith, index)) rew,
            )
      ]

  -- The state of a channel that is registered, as the tests of `removeChannel` see it.
  drop_added :
      (w : EpollPoller K) (p : ℕ) (c : Channel) (x : Events × ℕ)
      → find p w.objects ≡ some c
      → view w.kernel c.fd ≡ some x
      → (w' : EpollPoller K) × ((update epoll_ctl del p (record w {
        channels = drop_key c.fd w.channels;
        objects = put p (record c { added_to_loop = false }) w.objects;
      })
            >>= set_index epoll_ctl p new_index)
          ≡ ok w')
        × Rewires view w w' p (record c { added_to_loop = false; index = new_index }) none none
  unfolding update set_index
  drop_added w p c x alive watched =
      let c1 : Channel = record c { added_to_loop = false } in
      let c2 : Channel = record c { added_to_loop = false; index = new_index } in
      let o1 = put p c1 w.objects in
      let (done, entries) = laws.dels c.fd c.events p w.kernel x watched in
      (
        record w {
          channels = drop_key c.fd w.channels;
          objects = put p c2 o1;
          kernel = (epoll_ctl del c.fd c.events p w.kernel).0;
        },
        ground (arith, find-put p p c1 w.objects, done),
        record {
          objects = λ j. ground (arith, find-put p j c1 w.objects, find-put p j c2 o1);
          channels = λ j. find-drop_key c.fd j w.channels;
          entries = entries;
        },
      )

  drop_deleted :
      (w : EpollPoller K) (p : ℕ) (c : Channel)
      → find p w.objects ≡ some c
      → view w.kernel c.fd ≡ none
      → (w' : EpollPoller K) × (set_index epoll_ctl p new_index (record w {
        channels = drop_key c.fd w.channels;
        objects = put p (record c { added_to_loop = false }) w.objects;
      })
          ≡ ok w')
        × Rewires view w w' p (record c { added_to_loop = false; index = new_index }) none none
  unfolding set_index
  drop_deleted w p c alive out =
      let c1 : Channel = record c { added_to_loop = false } in
      let c2 : Channel = record c { added_to_loop = false; index = new_index } in
      let o1 = put p c1 w.objects in
      (
        record w { channels = drop_key c.fd w.channels; objects = put p c2 o1 },
        ground (arith, find-put p p c1 w.objects),
        record {
          objects = λ j. ground (arith, find-put p j c1 w.objects, find-put p j c2 o1);
          channels = λ j. find-drop_key c.fd j w.channels;
          entries = λ j. ground (arith, out);
        },
      )

  -- `remove` of a registered channel without events succeeds and keeps the invariant. The channel's
  -- descriptor is neither in the map nor in the kernel's list any more, the channel is new again, and no
  -- other channel or entry changes.
  pub remove-Rewires :
      (w : EpollPoller K) (p : ℕ) (c : Channel)
      → Inv view w
      → find p w.objects ≡ some c
      → find c.fd w.channels ≡ some p
      → c.events ≡ none_event
      → (w' : EpollPoller K) × (remove epoll_ctl p w ≡ ok w')
        × Inv view w'
        × Rewires view w w' p (record c { added_to_loop = false; index = new_index }) none none
  unfolding remove remove_channel is_none_event
  remove-Rewires w p c inv alive mapped quiet =
      let c1 : Channel = record c { added_to_loop = false } in
      let m = inv.mapped c.fd p mapped in
      let same : m.chan ≡ c = ground (arith, m.alive, alive) in
      elim m.watches [
        | inl (at, watched) ↦
            let index : c.index ≡ added_index = ground (arith, at, same) in
            let (w', r, rew) = drop_added w p c _ alive watched in
            (
              w',
              ground (arith, alive, find-put p p c1 w.objects, index, mapped, quiet, r),
              removed-Inv view w w' p c _ inv alive refl (inr mapped) rew refl,
              rew,
            )
        | inr (at, _, out) ↦
            let index : c.index ≡ deleted_index = ground (arith, at, same) in
            let (w', r, rew) = drop_deleted w p c alive out in
            (
              w',
              ground (arith, alive, find-put p p c1 w.objects, index, mapped, quiet, r),
              removed-Inv view w w' p c _ inv alive refl (inr mapped) rew refl,
              rew,
            )
      ]

  -- Of a channel that exists, `hasChannel` says that the poller has it exactly if its index is not `kNew`.
  pub has_channel-index :
      (w : EpollPoller K) (p : ℕ) (c : Channel)
      → Inv view w
      → find p w.objects ≡ some c
      → has_channel epoll_ctl p w ≡ ok (not (eq_ℤ c.index new_index))
  unfolding has_channel
  has_channel-index w p c inv alive = elim (Bool-cases (is_entry p (find c.fd w.channels))) [
    | inl e ↦
        let m = inv.mapped c.fd p (is_entry-some p _ e) in
        ground (arith, alive, m.alive, m.watches, e)
    | inr e ↦ elim (inv.known p c alive) [
      | inl new ↦ ground (arith, alive, new, e)
      | inr at ↦ ground (arith, at, e)
    ]
  ]

-- ===== src/Net/KqueuePoller/Filters.antt =====
-- Which filters the kernel watches after a channel has changed.
use dxian.Prelude.{
  ℕ, ◌≡◌, inl, inr, refl, ◌∙◌, Bool, true, false, ◌&&◌, ◌||◌, Option, none, some, arith, Bool-cases,
  ◌==◌, if◌then◌else◌,
}
use dxian.Prelude.Int.{ℤ}
use dxian.Net.Poller.{ok, eq_ℤ}
use dxian.Net.Store.{find, find-put}
use dxian.Net.Channel.{Channel, Events, is_none_event}
use dxian.Net.EpollPoller.{new_index, added_index, deleted_index}
use dxian.Net.KqueuePoller.{
  Filter, read_filter, write_filter, Action, ev_add, ev_delete, ev_enable, ev_disable, Kevent,
  KqueuePoller, update_channel, change_events, delete_filters, ev_set,
}

abbrev pub same_filter : Filter → Filter → Bool
same_filter read_filter read_filter = true
same_filter read_filter write_filter = false
same_filter write_filter read_filter = false
same_filter write_filter write_filter = true

-- What an action makes of an entry of the queue: `some true` is enabled.
abbrev pub act : Action → Option Bool → Option Bool
act ev_add e = some true
act ev_delete e = none
act ev_enable none = none
act ev_enable (some b) = some true
act ev_disable none = none
act ev_disable (some b) = some false

-- kqueue(2): a change concerns the entry of its descriptor and its filter. Enabling, disabling or deleting an entry that is
-- not there fails, and changes nothing.
abbrev pub IsKqueue : {K : Type 0} → (Kevent → K → K) → (K → ℕ → Filter → Option Bool) → Type 0
IsKqueue {K} kevent entry =
    (e : Kevent) (k : K) (fd : ℕ) (f : Filter)
    → entry (kevent e k) fd f ≡ (
        if e.ident == fd && same_filter e.filter f
        then act e.action (entry k fd f)
        else entry k fd f)

-- The one of a pair that belongs to the filter.
abbrev chosen {ℓ} : {A : Type ℓ} → Filter → A → A → A
chosen read_filter a b = a
chosen write_filter a b = b

-- The channel asks for the filter.
abbrev pub asks : Events → Filter → Bool
asks e f = chosen f e.pollin e.pollout

-- What becomes of an entry when a channel of that index gets these events.
abbrev pub updated : ℤ → Bool → Bool → Option Bool → Option Bool
updated index no_events asked entry =
    if eq_ℤ index new_index || eq_ℤ index deleted_index
    then (if asked then some true else entry)
    else if no_events
    then none
    else act (if asked then ev_enable else ev_disable) entry

module _ {K : Type 0} (kevent : Kevent → K → K) (entry : K → ℕ → Filter → Option Bool)
    (law : IsKqueue kevent entry) where
  set-entry :
      (fd : ℕ) (f : Filter) (a : Action) (u : Option ℕ) (k : K) (fd' : ℕ) (f' : Filter)
      → entry (ev_set kevent fd f a u k) fd' f'
        ≡ (if fd == fd' && same_filter f f' then act a (entry k fd' f') else entry k fd' f')
  set-entry fd f a u k fd' f' = law _ k fd' f'

  -- The two changes that an update may make of one entry: of the filter for reading, and then of the one for writing.
  both-entry :
      (fd : ℕ) (a b : Action) (u : Option ℕ) (k : K) (fd' : ℕ) (f : Filter)
      → entry (ev_set kevent fd write_filter b u (ev_set kevent fd read_filter a u k)) fd' f
        ≡ (if fd == fd' then act (chosen f a b) (entry k fd' f) else entry k fd' f)
  both-entry fd a b u k fd' read_filter = ground (
    arith,
    set-entry fd write_filter b u (ev_set kevent fd read_filter a u k) fd' read_filter,
    set-entry fd read_filter a u k fd' read_filter,
  )
  both-entry fd a b u k fd' write_filter = ground (
    arith,
    set-entry fd write_filter b u (ev_set kevent fd read_filter a u k) fd' write_filter,
    set-entry fd read_filter a u k fd' write_filter,
  )

  added : (p : ℕ) (fd : ℕ) (r w : Bool) (k : K) → K
  added p fd r w k =
      let k1 = if r then ev_set kevent fd read_filter ev_add (some p) k else k in
      if w then ev_set kevent fd write_filter ev_add (some p) k1 else k1

  modified : (p : ℕ) (fd : ℕ) (r w : Bool) (k : K) → K
  modified p fd r w k =
      let k1 =
        if r
        then ev_set kevent fd read_filter ev_enable (some p) k
        else ev_set kevent fd read_filter ev_disable (some p) k in
      if w
      then ev_set kevent fd write_filter ev_enable (some p) k1
      else ev_set kevent fd write_filter ev_disable (some p) k1

  added-entry :
      (p : ℕ) (fd : ℕ) (r w : Bool) (k : K) (fd' : ℕ) (f : Filter)
      → entry (added p fd r w k) fd' f
        ≡ (if fd == fd' && chosen f r w then some true else entry k fd' f)
  unfolding added
  added-entry p fd true true k fd' f = both-entry fd ev_add ev_add (some p) k fd' f ∙ ground arith
  added-entry p fd true false k fd' f =
      ground (arith, set-entry fd read_filter ev_add (some p) k fd' f)
  added-entry p fd false true k fd' f =
      ground (arith, set-entry fd write_filter ev_add (some p) k fd' f)
  added-entry p fd false false k fd' f = ground arith

  modified-entry :
      (p : ℕ) (fd : ℕ) (r w : Bool) (k : K) (fd' : ℕ) (f : Filter)
      → entry (modified p fd r w k) fd' f ≡ (
          if fd == fd'
          then act (if chosen f r w then ev_enable else ev_disable) (entry k fd' f)
          else entry k fd' f)
  unfolding modified
  modified-entry p fd true true k fd' f =
      both-entry fd ev_enable ev_enable (some p) k fd' f ∙ ground arith
  modified-entry p fd true false k fd' f =
      both-entry fd ev_enable ev_disable (some p) k fd' f ∙ ground arith
  modified-entry p fd false true k fd' f =
      both-entry fd ev_disable ev_enable (some p) k fd' f ∙ ground arith
  modified-entry p fd false false k fd' f =
      both-entry fd ev_disable ev_disable (some p) k fd' f ∙ ground arith

  deleted-entry :
      (c : Channel) (k : K) (fd : ℕ) (f : Filter)
      → entry (delete_filters kevent c k) fd f ≡ (if c.fd == fd then none else entry k fd f)
  deleted-entry c k fd f = both-entry c.fd ev_delete ev_delete none k fd f ∙ ground arith

  -- What the poller does with a channel whose index says that it is new, deleted or added.
  abbrev Updates : ℕ → Channel → KqueuePoller K → Type 0
  Updates p c w =
      (w' : KqueuePoller K) × (update_channel kevent p w ≡ ok w')
      × ((fd : ℕ) (f : Filter)
          → entry w'.kernel fd f ≡ (
              if c.fd == fd
              then updated c.index (is_none_event c) (asks c.events f) (entry w.kernel fd f)
              else entry w.kernel fd f))

  update_channel-watches :
      (p : ℕ) (c : Channel) (w : KqueuePoller K)
      → find p w.objects ≡ some c
      → (eq_ℤ c.index new_index || eq_ℤ c.index deleted_index || eq_ℤ c.index added_index ≡ true)
      → Updates p c w
  unfolding update_channel added modified
  update_channel-watches p c w alive known =
      rw alive (elim (Bool-cases (eq_ℤ c.index new_index || eq_ℤ c.index deleted_index)) [
        | inl e ↦ rw e (
          _,
          refl,
          λ fd f. added-entry p c.fd c.events.pollin c.events.pollout w.kernel fd f ∙ ground arith,
        )
        | inr e ↦ elim (Bool-cases (is_none_event c)) [
          | inl n ↦ rw (e, n, is_added e) (_, refl, λ fd f. deleted-entry c w.kernel fd f)
          | inr n ↦
              rw (e, n)
                (
                  _,
                  refl,
                  λ fd f. modified-entry p c.fd c.events.pollin c.events.pollout w.kernel fd f,
                )
        ]
      ])
    where
      is_added :
          eq_ℤ c.index new_index || eq_ℤ c.index deleted_index ≡ false
          → eq_ℤ c.index added_index ≡ true
      is_added e = ground (arith, e, known)

  -- After `enableReading` and its like, and whatever filters the kernel watched before: a filter of another descriptor is
  -- watched as before. On the first time, or after all events were disabled, those that the channel asks for are
  -- watched, and the others are as before. Otherwise no filter is left when the channel asks for no event, and else those filters
  -- that were there are on or off as the channel asks, and one that was not there is still not there.
  pub change_events-watches :
      (change : Events → Events) (p : ℕ) (c : Channel) (w : KqueuePoller K)
      → find p w.objects ≡ some c
      → (eq_ℤ c.index new_index || eq_ℤ c.index deleted_index || eq_ℤ c.index added_index ≡ true)
      → (w' : KqueuePoller K) × (change_events kevent change p w ≡ ok w')
        × ((fd : ℕ) (f : Filter)
            → entry w'.kernel fd f ≡ (
                if c.fd == fd
                then updated c.index
                    (is_none_event (record c { events = change c.events }))
                    (asks (change c.events) f)
                    (entry w.kernel fd f)
                else entry w.kernel fd f))
  unfolding change_events is_none_event
  change_events-watches change p c w alive known = rw alive (
      update_channel-watches p (record c { events = change c.events; added_to_loop = true }) _
        (ground (
          arith,
          find-put p p (record c { events = change c.events; added_to_loop = true }) w.objects,
        ))
        known)

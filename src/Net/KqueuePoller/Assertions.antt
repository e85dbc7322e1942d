-- ===== src/Net/KqueuePoller/Assertions.antt =====
-- The version for macOS never fills `channels_`, and two of its assertions rely on it.
use dxian.Prelude.{
  ℕ, suc, ◌≡◌, inl, inr, refl, ◌||◌, none, some, List, [], ◌∷◌, arith, Bool-cases, Option-cases,
  length, leb,
}
use dxian.Net.Poller.{Result, ok, fault, fatal, ◌>>=◌, eq_ℤ}
use dxian.Net.Store.{find}
use dxian.Net.Channel.{Events, is_none_event}
use dxian.Net.EpollPoller.{new_index, added_index, deleted_index}
use dxian.Net.KqueuePoller.{
  Filter, Kevent, KqueuePoller, update_channel, change_events, remove_channel, remove,
  fill_active_channels, poll, Use, makes, changes, removes, polls, run, run_all, kqueue_poller,
}

module _ {K : Type 0} (kevent : Kevent → K → K) where
  -- If it succeeds, `channels_` is still empty.
  abbrev StaysEmpty : Result (KqueuePoller K) → Type 0
  StaysEmpty r = (w : KqueuePoller K) → r ≡ ok w → w.channels ≡ []

  fault-StaysEmpty : StaysEmpty fault
  fault-StaysEmpty w e = absurd (ground (arith, e))

  ok-StaysEmpty : (w : KqueuePoller K) → w.channels ≡ [] → StaysEmpty (ok w)
  ok-StaysEmpty w h w' e = ground (arith, e, h)

  update_channel-StaysEmpty :
      (p : ℕ) (w : KqueuePoller K) → w.channels ≡ [] → StaysEmpty (update_channel kevent p w)
  unfolding update_channel
  update_channel-StaysEmpty p w h = elim (Option-cases (find p w.objects)) [
    | inl gone ↦ rw gone fault-StaysEmpty
    | inr (c, alive) ↦
        rw alive (elim (Bool-cases (eq_ℤ c.index new_index || eq_ℤ c.index deleted_index)) [
          | inl e ↦ rw e (ok-StaysEmpty _ h)
          | inr e ↦ elim (Bool-cases (is_none_event c)) [
            | inl n ↦ elim (Bool-cases (eq_ℤ c.index added_index)) [
              | inl i ↦ rw (e, n, i) (ok-StaysEmpty _ h)
              | inr i ↦ rw (e, n, i) (ok-StaysEmpty _ h)
            ]
            | inr n ↦ rw (e, n) (ok-StaysEmpty _ h)
          ]
        ])
  ]

  change_events-StaysEmpty :
      (change : Events → Events) (p : ℕ) (w : KqueuePoller K)
      → w.channels ≡ []
      → StaysEmpty (change_events kevent change p w)
  unfolding change_events
  change_events-StaysEmpty change p w h = elim (Option-cases (find p w.objects)) [
    | inl gone ↦ rw gone fault-StaysEmpty
    | inr (c, alive) ↦ rw alive (update_channel-StaysEmpty p _ h)
  ]

  remove_channel-fault :
      (p : ℕ) (w : KqueuePoller K) → w.channels ≡ [] → remove_channel kevent p w ≡ fault
  unfolding remove_channel find
  remove_channel-fault p w h = elim (Option-cases (find p w.objects)) [
    | inl gone ↦ rw gone refl
    | inr (c, alive) ↦
        rw alive (elim (Bool-cases (eq_ℤ c.index added_index || eq_ℤ c.index deleted_index)) [
          | inl e ↦ rw (e, h) refl
          | inr e ↦ rw e refl
        ])
  ]

  remove-fault : (p : ℕ) (w : KqueuePoller K) → w.channels ≡ [] → remove kevent p w ≡ fault
  unfolding remove
  remove-fault p w h = elim (Option-cases (find p w.objects)) [
    | inl gone ↦ rw gone refl
    | inr (c, alive) ↦ rw alive (elim (Bool-cases (is_none_event c)) [
      | inl n ↦ rw n (remove_channel-fault p _ h)
      | inr n ↦ rw n refl
    ])
  ]

  poll-fault :
      (p : ℕ) (f : Filter) (reported : List (ℕ × Filter)) (w : KqueuePoller K)
      → w.channels ≡ []
      → poll kevent (some ((p, f) ∷ reported)) w ≡ fault
  unfolding poll fill_active_channels find
  poll-fault p f reported w h = elim (Bool-cases (leb (suc (length reported)) w.events_size)) [
    | inl e ↦ elim (Option-cases (find p w.objects)) [
      | inl gone ↦ rw (e, gone) (ground arith)
      | inr (c, alive) ↦ rw (e, alive, h) (ground arith)
    ]
    | inr e ↦ rw e (ground arith)
  ]

  run-StaysEmpty :
      (call : Use kevent) (w : KqueuePoller K) → w.channels ≡ [] → StaysEmpty (run kevent call w)
  unfolding run poll
  run-StaysEmpty (makes p c) w h = ok-StaysEmpty _ h
  run-StaysEmpty (changes change p) w h = change_events-StaysEmpty change p w h
  run-StaysEmpty (removes p) w h = rw (remove-fault p w h) fault-StaysEmpty
  run-StaysEmpty (polls none) w h = ok-StaysEmpty _ h
  run-StaysEmpty (polls (some [])) w h = ok-StaysEmpty _ h
  run-StaysEmpty (polls (some ((p, f) ∷ reported))) w h =
      rw (poll-fault p f reported w h) fault-StaysEmpty

  then-StaysEmpty :
      (f : KqueuePoller K → Result (KqueuePoller K)) (r : Result (KqueuePoller K))
      → StaysEmpty r
      → ((w : KqueuePoller K) → w.channels ≡ [] → StaysEmpty (f w))
      → StaysEmpty (r >>= f)
  then-StaysEmpty f (ok w) h k = k w (h w refl)
  then-StaysEmpty f fault h k = fault-StaysEmpty
  then-StaysEmpty f fatal h k = λ w e. absurd (ground (arith, e))

  run_all-StaysEmpty :
      (calls : List (Use kevent)) (w : KqueuePoller K)
      → w.channels ≡ []
      → StaysEmpty (run_all kevent calls w)
  unfolding run_all
  run_all-StaysEmpty [] w h = ok-StaysEmpty w h
  run_all-StaysEmpty (call ∷ calls) w h =
      then-StaysEmpty (run_all kevent calls) (run kevent call w) (run-StaysEmpty call w h)
        (run_all-StaysEmpty calls)

  -- Whatever a program has done with the poller before: to remove a channel fails an assertion, and so does a
  -- `poll` for which the kernel reports an event.
  pub run_all-fails :
      (k : K) (calls : List (Use kevent)) (w : KqueuePoller K)
      → run_all kevent calls (kqueue_poller k) ≡ ok w
      → ((p : ℕ) → remove kevent p w ≡ fault)
        × ((p : ℕ) (f : Filter) (reported : List (ℕ × Filter))
            → poll kevent (some ((p, f) ∷ reported)) w ≡ fault)
  run_all-fails k calls w e =
      let empty = run_all-StaysEmpty calls (kqueue_poller k) refl w e in
      (λ p. remove-fault p w empty, λ p f reported. poll-fault p f reported w empty)

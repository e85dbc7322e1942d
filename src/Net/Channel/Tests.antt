-- ===== src/Net/Channel/Tests.antt =====
-- The theorems about the dispatch of events, at a channel that hears of a hangup.
use dxian.Prelude.{◌≡◌, ◌⊎◌, refl, true, false, not, ◌&&◌, [], ◌∷◌}
use dxian.Prelude.Int.{pos}
use dxian.Net.Channel.{
  Channel, Callback, reads, closes, warns_hup, none_event, read_event, handle_event,
  handle_event_with_guard, on_hup, on_error, on_read, on_write, log_warning, do_call, meets,
  disable_all, is_none_event,
}
use dxian.Net.Channel.Dispatch.{IsMild, Dispatches, handle_event-Dispatches}

abbrev hung : Channel
hung = record {
  fd = 5;
  events = read_event;
  revents = record none_event { pollhup = true; pollrdhup = true };
  index = pos 1;
  log_hup = true;
  tied = true;
  event_handling = false;
  added_to_loop = true;
  read_callback = true;
  write_callback = true;
  close_callback = true;
  error_callback = true;
}

-- The close callback takes all events away.
abbrev effect : Callback
effect closes c = record c { events = none_event }
effect call c = c

effect-IsMild : IsMild effect
effect-IsMild closes c = (refl, refl, refl, refl, refl, refl)
effect-IsMild call c = (refl, refl, refl, refl, refl, refl)

handle_event-Dispatches_example :
    (hung.tied && not true ≡ true) × (handle_event effect true 7 hung ≡ (hung, []))
    ⊎ ((hung.tied && not true ≡ false)
        × Dispatches hung (handle_event effect true 7 hung).1
        × ((handle_event effect true 7 hung).0.event_handling ≡ false))
handle_event-Dispatches_example = handle_event-Dispatches effect true 7 hung effect-IsMild

-- The hangup closes and then reads, and both calls find the channel handling its events.
hung_up : handle_event effect true 7 hung ≡ (
  record hung { events = none_event },
  (reads 7, true) ∷ (closes, true) ∷ (warns_hup, true) ∷ [],
)
unfolding handle_event handle_event_with_guard on_hup on_error on_read on_write log_warning do_call
    meets
hung_up = refl

quiet : is_none_event (record hung { events = disable_all read_event }) ≡ true
unfolding disable_all is_none_event
quiet = refl

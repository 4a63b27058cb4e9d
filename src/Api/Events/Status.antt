-- ===== src/Api/Events/Status.antt =====
-- How provider events move the status of a message.
use mathlib.Core.Option.{some-injective}
use mux_mail.Prelude.{
  ℕ, ◌≡◌, refl, sym, ap, ◌∙◌, ltb, Bool, true, false, ◌||◌, Option, none, some, List, [], ◌∷◌,
  arith, if◌then◌else◌,
}
use mux_mail.Domain.Constants.{
  MessageStatus, ProviderEventType, event_message_status, message_status_is_valid,
}
use mux_mail.Api.Events.{
  message_status_is_empty, same_message_status, moves_to, next_provider_event_message_status,
  event_type_for_message_status,
}

-- How far the status of a message is: on its way, delivered, bounced, complained of. `failed` and a complaint are
-- final.
abbrev pub rank : MessageStatus → ℕ
rank MessageStatus.delivered = 1
rank MessageStatus.bounced = 2
rank MessageStatus.complained = 3
rank MessageStatus.failed = 3
rank _ = 0

-- A status that an event moves to is the event's.
next_is_asked :
    (current : MessageStatus) (e : ProviderEventType) (next : MessageStatus)
    → next_provider_event_message_status current e ≡ some next
    → next ≡ event_message_status e
unfolding next_provider_event_message_status
next_is_asked current e next h =
    by_tests
      (message_status_is_empty (event_message_status e)
        || same_message_status current (event_message_status e))
      (moves_to current (event_message_status e)) h
  where
    by_tests :
        (a b : Bool)
        → (if a then none else if b then some (event_message_status e) else none) ≡ some next
        → next ≡ event_message_status e
    by_tests true b h = absurd (cc h)
    by_tests false true h = sym (some-injective (event_message_status e) next h)
    by_tests false false h = absurd (cc h)

abbrev pub max : ℕ → ℕ → ℕ
max a b = if ltb a b then b else a

abbrev pub status_after : MessageStatus → Option MessageStatus → MessageStatus
status_after current none = current
status_after current (some next) = next

step-rank :
    (current : MessageStatus) (e : ProviderEventType)
    → rank (status_after current (next_provider_event_message_status current e))
      ≡ max (rank current) (rank (event_message_status e))
unfolding next_provider_event_message_status event_message_status
step-rank MessageStatus.queued ProviderEventType.delivered = refl
step-rank MessageStatus.sending ProviderEventType.delivered = refl
step-rank MessageStatus.retrying ProviderEventType.delivered = refl
step-rank MessageStatus.sent ProviderEventType.delivered = refl
step-rank MessageStatus.failed ProviderEventType.delivered = refl
step-rank MessageStatus.delivered ProviderEventType.delivered = refl
step-rank MessageStatus.bounced ProviderEventType.delivered = refl
step-rank MessageStatus.complained ProviderEventType.delivered = refl
step-rank (MessageStatus.other s) ProviderEventType.delivered = refl
step-rank MessageStatus.queued ProviderEventType.bounced = refl
step-rank MessageStatus.sending ProviderEventType.bounced = refl
step-rank MessageStatus.retrying ProviderEventType.bounced = refl
step-rank MessageStatus.sent ProviderEventType.bounced = refl
step-rank MessageStatus.failed ProviderEventType.bounced = refl
step-rank MessageStatus.delivered ProviderEventType.bounced = refl
step-rank MessageStatus.bounced ProviderEventType.bounced = refl
step-rank MessageStatus.complained ProviderEventType.bounced = refl
step-rank (MessageStatus.other s) ProviderEventType.bounced = refl
step-rank MessageStatus.queued ProviderEventType.complained = refl
step-rank MessageStatus.sending ProviderEventType.complained = refl
step-rank MessageStatus.retrying ProviderEventType.complained = refl
step-rank MessageStatus.sent ProviderEventType.complained = refl
step-rank MessageStatus.failed ProviderEventType.complained = refl
step-rank MessageStatus.delivered ProviderEventType.complained = refl
step-rank MessageStatus.bounced ProviderEventType.complained = refl
step-rank MessageStatus.complained ProviderEventType.complained = refl
step-rank (MessageStatus.other s) ProviderEventType.complained = refl
step-rank current (ProviderEventType.other s) = max_zero (rank current)
  where
    max_zero : (n : ℕ) → n ≡ max n 0
    max_zero n = ground arith

-- What is written to the log is the status that was asked for.
pub written-status :
    (current : MessageStatus) (e : ProviderEventType) (next : MessageStatus)
    → next_provider_event_message_status current e ≡ some next
    → event_message_status (event_type_for_message_status next) ≡ next
unfolding event_type_for_message_status event_message_status
written-status current e next h = rw (next_is_asked current e next h) (by_event e)
  where
    by_event :
        (e : ProviderEventType)
        → event_message_status (event_type_for_message_status (event_message_status e))
          ≡ event_message_status e
    by_event ProviderEventType.delivered = refl
    by_event ProviderEventType.bounced = refl
    by_event ProviderEventType.complained = refl
    by_event (ProviderEventType.other s) = refl

-- The status after events, in the order in which they come.
abbrev pub after_events : MessageStatus → List ProviderEventType → MessageStatus
after_events current [] = current
after_events current (e ∷ events) =
    after_events (status_after current (next_provider_event_message_status current e)) events

abbrev pub highest_rank : List ProviderEventType → ℕ
highest_rank [] = 0
highest_rank (e ∷ events) = max (rank (event_message_status e)) (highest_rank events)

max_assoc : (a b c : ℕ) → max (max a b) c ≡ max a (max b c)
max_assoc a b c = ground arith

-- In whatever order events come, and however often, the status of the message ends as far as the farthest of
-- them and its own: with no event it moves back, and it does not pass the farthest.
pub rank-after_events :
    (current : MessageStatus) (events : List ProviderEventType)
    → rank (after_events current events) ≡ max (rank current) (highest_rank events)
rank-after_events current [] = ground arith
rank-after_events current (e ∷ events) =
    rank-after_events (status_after current (next_provider_event_message_status current e)) events
    ∙ ap (λ n. max n (highest_rank events)) (step-rank current e)
    ∙ max_assoc (rank current) (rank (event_message_status e)) (highest_rank events)

-- An event moves a message to a status that the log takes, and does not move it twice.
pub next_is_valid :
    (current : MessageStatus) (e : ProviderEventType) (next : MessageStatus)
    → next_provider_event_message_status current e ≡ some next
    → message_status_is_valid next ≡ true
unfolding next_provider_event_message_status event_message_status message_status_is_valid
next_is_valid current e next h = rw (next_is_asked current e next h) (by_event e h)
  where
    by_event :
        (e : ProviderEventType)
        → next_provider_event_message_status current e ≡ some next
        → message_status_is_valid (event_message_status e) ≡ true
    by_event ProviderEventType.delivered h = refl
    by_event ProviderEventType.bounced h = refl
    by_event ProviderEventType.complained h = refl
    by_event (ProviderEventType.other s) h = absurd (cc h)

pub next-again :
    (current : MessageStatus) (e : ProviderEventType) (next : MessageStatus)
    → next_provider_event_message_status current e ≡ some next
    → next_provider_event_message_status next e ≡ none
unfolding next_provider_event_message_status event_message_status
next-again current e next h = rw (next_is_asked current e next h) (by_event e)
  where
    by_event :
        (e : ProviderEventType)
        → next_provider_event_message_status (event_message_status e) e ≡ none
    by_event ProviderEventType.delivered = refl
    by_event ProviderEventType.bounced = refl
    by_event ProviderEventType.complained = refl
    by_event (ProviderEventType.other s) = refl

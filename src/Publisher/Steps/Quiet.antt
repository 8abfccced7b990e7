-- ===== src/Publisher/Steps/Quiet.antt =====
-- `SendspinSourcePublisher` (src/phono_console/sendspin_source.py): local mode is authoritative.
use phono_console.Base.{
  String, none, ◌∷◌, List, Option, ◌≡◌, Bool, true, false, not, ◌&&◌, arith, is_some,
}
use phono_console.Policy.{is_source, phono}
use phono_console.Publisher.Commands.{
  refuse_start, start_command, distribution_allowed, proceed_start, stop_command, Sender,
  set_distribution_enabled,
}
use phono_console.Publisher.Steps.{
  steps, step, Step, started, stopped, distribution_set, source_distribution_set, source_wanted,
  stop_committed, connection_made, connection_lost, torn_down, pump_finished, retry_due, observed,
  fed, proceeded, start_asked, stream_opened, stop_asked, stream_closed,
}
use phono_console.Base.{List, [], ◌∷◌, refl}
use phono_console.Publisher.{
  command_received, publish, view, Effect, stream_started, media_play, Publisher,
}

-- Nothing is streamed, asked for or pending.
unfoldable pub is_quiet : Publisher → Bool
is_quiet p =
    not p.streaming
    && (not p.stream_requested
        && (not (is_some p.stream_task) && not (is_some p.stream_retry_task)))

-- A step that runs through, and that does not enable the distribution.
unfoldable pub is_local : Step → Bool
is_local (distribution_set to enabled) = not enabled
is_local (proceeded outcome) = false
is_local start_asked = false
is_local (stream_opened outcome) = false
is_local s = true

pub is_muted : Publisher → Bool
unfolding is_quiet
is_muted p = not p.distribution_enabled && is_quiet p

pub muting : (to : Sender) (p : Publisher) → is_muted (set_distribution_enabled to false p).0 ≡ true
unfolding set_distribution_enabled is_muted
muting to p = ground arith

pub step-is_muted :
    (t : Step) (p : Publisher) → is_local t ≡ true → is_muted p ≡ true → is_muted (step t p) ≡ true
unfolding is_muted step is_local
step-is_muted (started to media outcome) p l m = ground arith
step-is_muted stopped p l m = ground arith
step-is_muted (distribution_set to true) p l m = ground arith
step-is_muted (distribution_set to false) p l m = ground arith
step-is_muted (source_distribution_set to wanted enabled) p l m = ground arith
step-is_muted (source_wanted wanted outcome) p l m = ground arith
step-is_muted (stop_committed id cancelled) p l m = ground arith
step-is_muted connection_made p l m = ground arith
step-is_muted connection_lost p l m = ground arith
step-is_muted torn_down p l m = ground arith
step-is_muted (pump_finished id error) p l m = ground arith
step-is_muted (retry_due id outcome) p l m = ground arith
step-is_muted (observed level now) p l m = ground arith
step-is_muted (fed now) p l m = ground arith
step-is_muted (proceeded outcome) p l m = ground arith
step-is_muted start_asked p l m = ground arith
step-is_muted (stream_opened outcome) p l m = ground arith
step-is_muted stop_asked p l m = ground arith
step-is_muted stream_closed p l m = ground arith

unfoldable pub all_local : List Step → Bool
unfolding is_local
all_local [] = true
all_local (t ∷ ss) = is_local t && all_local ss

pub steps-is_muted :
    (ss : List Step) (p : Publisher)
    → all_local ss ≡ true
    → is_muted p ≡ true
    → is_muted (steps ss p) ≡ true
unfolding steps all_local
steps-is_muted [] p l m = m
steps-is_muted (t ∷ ss) p l m =
    steps-is_muted ss (step t p) (ground (arith, l)) (step-is_muted t p (ground (arith, l)) m)

pub is_quiet_of_muted : (p : Publisher) → is_muted p ≡ true → is_quiet p ≡ true
unfolding is_muted
is_quiet_of_muted p m = ground arith

-- Once the distribution is disabled, nothing is streamed, asked for or pending after any sequence of
-- whole steps that does not enable it: a late start of the server, a retry, a new source and a new
-- connection included.
pub steps-is_quiet :
    (to : Sender) (ss : List Step) (p : Publisher)
    → all_local ss ≡ true
    → is_quiet (steps ss (set_distribution_enabled to false p).0) ≡ true
steps-is_quiet to ss p l =
    is_quiet_of_muted (steps ss (set_distribution_enabled to false p).0)
      (steps-is_muted ss (set_distribution_enabled to false p).0 l (muting to p))

-- The effects that open the capture or the phone.
unfoldable pub opens : Effect → Bool
opens media_play = true
opens stream_started = true
opens e = false

unfoldable pub opens_none : List Effect → Bool
unfolding opens
opens_none [] = true
opens_none (e ∷ es) = not (opens e) && opens_none es

refuse_start-is_quiet : (to : Sender) (p : Publisher) → is_quiet (refuse_start to p).0 ≡ true
unfolding refuse_start is_quiet
refuse_start-is_quiet to p = ground arith

refuse_start-opens_none : (to : Sender) (p : Publisher) → opens_none (refuse_start to p).1 ≡ true
unfolding refuse_start opens_none
refuse_start-opens_none to p = ground arith

opens_none-received :
    (es : List Effect) → opens_none es ≡ true → opens_none (command_received true ∷ es) ≡ true
unfolding opens_none opens
opens_none-received es h = h

-- A start of the server while the distribution or that of the selected source is disabled opens
-- neither the capture nor the phone, and leaves nothing streamed, asked for or pending.
pub start_refused :
    (to : Sender) (media outcome : Option String) (p : Publisher)
    → distribution_allowed p ≡ false
    → is_quiet (start_command to media outcome p).0 ≡ true
      × opens_none (start_command to media outcome p).1 ≡ true
unfolding start_command
start_refused to media outcome p h = rw h (
  refuse_start-is_quiet to p,
  opens_none-received (refuse_start to p).1 (refuse_start-opens_none to p),
)

-- A start that waits for the phone is not told of a disabled distribution: when there is a client,
-- the distribution is disabled in between, and the capture then starts, the stream is on.
pub proceed_disabled :
    (to : Sender) (p : Publisher)
    → p.has_client ≡ true
    → (proceed_start none (set_distribution_enabled to false p).0).0.streaming ≡ true
      × (proceed_start none (set_distribution_enabled to false p).0).0.distribution_enabled ≡ false
unfolding proceed_start set_distribution_enabled
proceed_disabled to p h = (ground arith, ground arith)

-- Disabling the distribution publishes what holds from then on.
pub disable_published :
    (to : Sender) (p : Publisher)
    → (set_distribution_enabled to false p).0.published
      ≡ view (set_distribution_enabled to false p).0
unfolding set_distribution_enabled view publish
disable_published to p = refl

-- A stop of the server for a source other than phono, when nothing is streamed, withdraws the request
-- but publishes nothing.
pub stop_unpublished :
    (p : Publisher)
    → is_source p.selected_source phono ≡ false
    → p.streaming ≡ false
    → (stop_command p).0.stream_requested ≡ false × (stop_command p).0.published ≡ p.published
unfolding stop_command
stop_unpublished p h k = (ground arith, ground arith)

-- ===== src/Publisher/Steps.antt =====
-- `SendspinSourcePublisher` (src/phono_console/sendspin_source.py) over time: its steps in the order
-- in which the event loop runs them.
pub mod Sound
pub mod Quiet
use phono_console.Base.{
  ℕ, zero, suc, ◌+◌, ◌-◌, ◌*◌, ◌/◌, ◌%◌, ◌^◌, ◌≤◌, ◌<◌, String, ◌≡◌, refl, sym, ap, ◌∙◌, subst, ◌≢◌,
  ◌↔◌, ◌⊎◌, inl, inr, Bool, true, false, not, ◌&&◌, ◌||◌, Option, none, some, List, [], ◌∷◌, ◌++◌,
  map, arith, ltb, leb, ◌==◌, if◌then◌else◌, leb→le, ==_iff, Bool-cases, Option-cases, is_some,
  length, take, drop, length-append, length-drop, All, All-append, take-append, drop-append,
  take-append-drop, length-take, take-add, take_last, drop-append_le, drop-drop, take_last-append,
  All-take, All-drop, ℤ, pos, negsuc, pos_part, neg_part, sub_ℕ, ◌+ℤ◌, ◌-ℤ◌, ◌≤ℤ◌, leb_ℤ, ltb_ℤ,
  +ℤ_parts, -ℤ_parts, eq_of_parts, int_laws,
}
use phono_console.Policy.{Source}
use phono_console.Publisher.{Effect, Publisher}
use phono_console.Publisher.Streaming.{
  request_start, open_stream, request_stop, close_stream, pump_ended, retry_round,
}
use phono_console.Publisher.Commands.{
  Sender, commit_phono_stop, set_distribution_enabled, set_source_distribution_enabled,
  select_source, proceed_start, start_command, stop_command, on_connected, on_connection_lost,
  on_torn_down,
}
use phono_console.Publisher.Pump.{observe_stream_activity, feed_completed}

pub data Step : Type 0 where
  started : Sender → Option String → Option String → Step
  stopped : Step
  distribution_set : Sender → Bool → Step
  source_distribution_set : Sender → Source → Bool → Step
  source_wanted : Source → Option String → Step
  stop_committed : ℕ → Bool → Step
  connection_made connection_lost torn_down : Step
  pump_finished : ℕ → Option String → Step
  retry_due : ℕ → Option String → Step
  observed : ℤ → ℕ → Step
  fed : ℕ → Step
  -- The parts of a command that another step can come between: what follows the play command, and
  -- what comes before and after a lock is taken.
  proceeded : Option String → Step
  start_asked : Step
  stream_opened : Option String → Step
  stop_asked stream_closed : Step

abbrev pub after_select : Publisher → Option (Publisher × List Effect) → Publisher
after_select p none = p
after_select p (some (p', effects)) = p'

unfoldable pub step : Step → Publisher → Publisher
unfolding start_command stop_command set_distribution_enabled set_source_distribution_enabled
    select_source commit_phono_stop on_connected on_connection_lost on_torn_down pump_ended
    retry_round observe_stream_activity feed_completed proceed_start request_start open_stream
    request_stop close_stream
step (started sender media outcome) p = (start_command sender media outcome p).0
step stopped p = (stop_command p).0
step (distribution_set sender enabled) p = (set_distribution_enabled sender enabled p).0
step (source_distribution_set sender wanted enabled) p =
    (set_source_distribution_enabled sender wanted enabled p).0
step (source_wanted wanted outcome) p = after_select p (select_source wanted outcome p)
step (stop_committed id cancelled) p = (commit_phono_stop id cancelled p).0
step connection_made p = (on_connected p).0
step connection_lost p = (on_connection_lost p).0
step torn_down p = (on_torn_down p).0
step (pump_finished id error) p = (pump_ended id error p).0
step (retry_due id outcome) p = (retry_round id outcome p).0
step (observed level now) p = (observe_stream_activity level now p).0
step (fed now) p = feed_completed now p
step (proceeded outcome) p = (proceed_start outcome p).0
step start_asked p = request_start p
step (stream_opened outcome) p = (open_stream outcome p).0
step stop_asked p = request_stop p
step stream_closed p = (close_stream p).0

unfoldable pub steps : List Step → Publisher → Publisher
unfolding step
steps [] p = p
steps (s ∷ ss) p = steps ss (step s p)

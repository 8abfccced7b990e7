-- ===== src/Publisher.antt =====
-- src/phono_console/sendspin_source.py: `SendspinSourcePublisher`, which streams a local source to
-- Music Assistant while the server asks for it.
--
-- The children: Streaming (starting, stopping, retrying and the end of the pump), Commands (what the
-- server, the user and the connection ask for), Signal (the line-sense watcher) and Pump (activity
-- and timestamps of what is sent). An asyncio task is a number, given in the order of creation; a
-- task that is done has removed itself, so `done()` is `none`. The code between two awaits is one
-- step. A lock makes the body of `_start_streaming` and of `_stop_streaming` one step each as well,
-- and the server's commands run one after another.
--
-- The Sendspin client, the capture and the Bluetooth transport are outside: the result of a call is
-- an argument, where `some` message is an exception. The peak limiter, which is floating-point, and
-- the setup of the client are not modelled.
pub mod Streaming
pub mod Steps
pub mod Commands
pub mod Signal
pub mod Pump
mod Tests
use phono_console.Base.{
  negsuc, true, ℕ, ◌+◌, String, Bool, false, ◌&&◌, Option, none, some, List, [], ◌∷◌, ◌++◌, leb,
  if◌then◌else◌, is_some, ℤ,
}
use phono_console.Policy.{Source, phono, bluetooth}
use phono_console.Detector.{ActivityDetector}

-- The dictionary that `_publish_state` gives to the state store, less the client's names and the
-- age of the activity.
pub record Published : Type 0 where
  pub connected : Bool
  pub streaming : Bool
  pub stream_requested : Bool
  pub phono_stop_pending : Bool
  pub error : Option String
  pub selected_source : Source
  pub pcm_activity : Option Bool
  pub pcm_level_dbfs : ℤ

-- What is known of one publishable source: whether a device is configured for it, and whether its
-- distribution is enabled.
pub record Device : Type 0 where
  pub publishable : Bool
  pub enabled : Option Bool

pub record Publisher : Type 0 where
  pub has_client : Bool
  pub connected : Bool
  pub stream_task : Option ℕ
  pub streaming : Bool
  pub stream_requested : Bool
  pub stream_retry_task : Option ℕ
  pub stream_error : Option String
  pub selected_source : Source
  pub distribution_enabled : Bool
  pub phono_device : Device
  pub bluetooth_device : Device
  pub has_bluetooth_media : Bool
  pub has_stop_action : Bool
  pub phono_stop_task : Option ℕ
  pub bluetooth_pause_latched : Bool
  pub bluetooth_pause_observed : Bool
  pub detector : Option ActivityDetector
  pub activity_level_dbfs : ℤ
  pub activity_updated_at : Option ℕ
  pub activity_seen_present : Bool
  pub last_feed_completed_at : Option ℕ
  -- The number of the next task.
  pub next_task : ℕ
  -- What the state store was last given.
  pub published : Published

pub data Effect : Type 0 where
  command_received : Bool → Effect
  start_ignored : Source → Effect
  media_play : Effect
  media_failed : String → Effect
  stream_failed : String → Effect
  stream_started stream_stopped : Effect
  source_selected : Source → Effect
  signal_sent signal_failed : Bool → Effect
  activity_changed : Bool → Effect
  state_published : Effect
  source_stopped : Source → Effect
  connected_event disconnected_event : Effect

-- A step of the publisher and its effects, in order.
abbrev pub Act : Type 0
Act = Publisher → Publisher × List Effect

infixl 5 ◌>>◌
abbrev pub ◌>>◌ : Act → Act → Act
◌>>◌ f g p = let (p', a) = f p in let (p'', b) = g p' in (p'', a ++ b)

abbrev pub emit : Effect → Act
emit e p = (p, e ∷ [])

abbrev pub skip : Act
skip p = (p, [])

-- `_source_devices` and `_source_distribution_enabled`
abbrev pub device : Publisher → Source → Device
device p phono = p.phono_device
device p bluetooth = p.bluetooth_device
device p _ = record { publishable = false; enabled = none }

abbrev pub enabled_or : Bool → Option Bool → Bool
enabled_or default none = default
enabled_or default (some b) = b

abbrev pub detector_active : Option ActivityDetector → Bool
detector_active none = false
detector_active (some d) = d.active

-- `stream_healthy`; `limit` is the three seconds of the feed timeout.
unfoldable pub stream_healthy : ℕ → ℕ → Publisher → Bool
stream_healthy limit now p =
    p.connected
    && (p.streaming
        && elim p.last_feed_completed_at [ none ↦ false | some t ↦ leb now (t + limit) ])

unfoldable pub phono_stop_pending : Publisher → Bool
phono_stop_pending p = is_some p.phono_stop_task

unfoldable pub view : Publisher → Published
unfolding phono_stop_pending
view p = record {
  connected = p.connected;
  streaming = p.streaming;
  stream_requested = p.stream_requested;
  phono_stop_pending = phono_stop_pending p;
  error = p.stream_error;
  selected_source = p.selected_source;
  pcm_activity =
      if p.streaming && (p.activity_seen_present && is_some p.detector)
      then some (detector_active p.detector)
      else none;
  pcm_level_dbfs = p.activity_level_dbfs;
}

-- `_publish_state`
unfoldable pub publish : Act
unfolding view
publish p = (record p { published = view p }, state_published ∷ [])

-- `__init__`. Nothing is published yet; the record holds what the first publication would give.
unfoldable pub initial : Bool → Bool → Bool → Option ActivityDetector → Publisher
unfolding view
initial has_bluetooth has_media has_stop detector =
    let p : Publisher = record {
      has_client = false;
      connected = false;
      stream_task = none;
      streaming = false;
      stream_requested = false;
      stream_retry_task = none;
      stream_error = none;
      selected_source = phono;
      distribution_enabled = true;
      phono_device = record { publishable = true; enabled = some true };
      bluetooth_device = record {
        publishable = has_bluetooth;
        enabled = if has_bluetooth then some true else none;
      };
      has_bluetooth_media = has_media;
      has_stop_action = has_stop;
      phono_stop_task = none;
      bluetooth_pause_latched = false;
      bluetooth_pause_observed = false;
      detector = detector;
      activity_level_dbfs = negsuc 119;
      activity_updated_at = none;
      activity_seen_present = false;
      last_feed_completed_at = none;
      next_task = 0;
      published = record {
        connected = false;
        streaming = false;
        stream_requested = false;
        phono_stop_pending = false;
        error = none;
        selected_source = phono;
        pcm_activity = none;
        pcm_level_dbfs = negsuc 119;
      };
    } in
    p

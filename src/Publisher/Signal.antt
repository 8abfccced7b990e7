-- ===== src/Publisher/Signal.antt =====
-- `SendspinSourcePublisher._watch_signal` (src/phono_console/sendspin_source.py): a round of the
-- line-sense watcher.
pub mod Release
use phono_console.Base.{
  ℕ, ◌+◌, Bool, true, false, not, ◌&&◌, ◌||◌, Option, none, some, List, [], ltb, if◌then◌else◌,
  is_some,
}
use phono_console.Policy.{Source, no_source, phono, bluetooth, is_source}
use phono_console.Controller.{Status}
use phono_console.Publisher.{Publisher, Effect, device, enabled_or, detector_active}
use phono_console.Publisher.Commands.{Sender, send_signal}

-- The locals `last` and `absent_since` of the loop.
pub record Watch : Type 0 where
  pub last : Option Bool
  pub absent_since : Option ℕ

pub data MediaStatus : Type 0 where
  media_playing media_paused media_stopped other_status : MediaStatus

abbrev pub status_source : Option Status → Source
status_source none = no_source
status_source (some s) =
    if s.phono_active then phono else (if s.bluetooth_active then bluetooth else no_source)

abbrev pub status_detected : Option Status → Source → Bool
status_detected none _ = false
status_detected (some s) selected =
    (is_source selected phono && s.phono_active)
    || (is_source selected bluetooth && s.bluetooth_active)

-- What counts as signal: the transmitted PCM once it has been heard, else the published status.
unfoldable pub detected : Option Status → Publisher → Bool
detected status p =
    if is_source p.selected_source phono
      && (p.streaming && (p.stream_requested && (is_some p.detector && p.activity_seen_present)))
    then detector_active p.detector
    else status_detected status p.selected_source

abbrev is_paused : Option MediaStatus → Bool
is_paused (some media_paused) = true
is_paused (some media_stopped) = true
is_paused _ = false

abbrev is_playing : Option MediaStatus → Bool
is_playing (some media_playing) = true
is_playing _ = false

-- The pause latch: a pause is observed, and then a new play releases it.
unfoldable pub watch_pause : Option Status → Option MediaStatus → Publisher → Publisher
watch_pause status media p =
    if p.bluetooth_pause_latched && is_source (status_source status) bluetooth
    then (if is_paused media
        then record p { bluetooth_pause_observed = true }
        else (if p.bluetooth_pause_observed && is_playing media
            then record p { bluetooth_pause_latched = false; bluetooth_pause_observed = false }
            else p))
    else p

abbrev pub since_or_now : Option ℕ → ℕ → ℕ
since_or_now none now = now
since_or_now (some t) now = t

abbrev pub is_present : Option Bool → Bool
is_present (some true) = true
is_present _ = false

-- The level that is to be reported, and the new `absent_since`.
unfoldable pub sense_line : ℕ → ℕ → Bool → Bool → Watch → Bool × Option ℕ
sense_line release now enabled heard w =
    if not enabled
    then (false, none)
    else (if heard
        then (true, none)
        else (if is_present w.last
            then (let since = since_or_now w.absent_since now in
                (ltb now (since + release), some since))
            else (false, w.absent_since)))

abbrev differs_from : Option Bool → Bool → Bool
differs_from none b = true
differs_from (some true) b = not b
differs_from (some false) b = b

-- A round of `_watch_signal`.
unfoldable pub watch_round :
    ℕ
    → Option Status
    → Option MediaStatus
    → Sender
    → ℕ
    → Publisher
    → Watch
    → Publisher × Watch × List Effect
unfolding detected watch_pause sense_line send_signal
watch_round release status media sender now p w =
    let p' = watch_pause status media p in
    let silenced = p'.bluetooth_pause_latched && is_source (status_source status) bluetooth in
    let heard = detected status p && not silenced in
    let enabled = p.distribution_enabled && enabled_or true (device p p.selected_source).enabled in
    let (active, since) = sense_line release now enabled heard w in
    if not p'.connected
    then (p', record { last = none; absent_since = since }, [])
    else (if differs_from w.last active
        then (let (sent, effects) = send_signal sender active p' in
            (
              p',
              record { last = if sent then some active else w.last; absent_since = since },
              effects,
            ))
        else (p', record { last = w.last; absent_since = since }, []))

-- ===== src/Publisher/Commands.antt =====
-- `SendspinSourcePublisher` (src/phono_console/sendspin_source.py): the commands of the server, the
-- choices of the user and the life of the connection.
use phono_console.Base.{
  ℕ, ◌+◌, String, Bool, true, false, not, ◌&&◌, ◌||◌, Option, none, some, List, [], ◌∷◌, ◌++◌,
  if◌then◌else◌,
}
use phono_console.Policy.{Source, phono, bluetooth, is_source}
use phono_console.Publisher.{
  Publisher, device, enabled_or, Effect, Act, ◌>>◌, emit, skip, publish, command_received,
  start_ignored, media_play, media_failed, source_selected, signal_sent, signal_failed,
  source_stopped, connected_event, disconnected_event,
}
use phono_console.Publisher.Streaming.{
  reset_stream_activity, start_streaming, stop_streaming, is_task,
}

-- What the client does with a signal: it has no sender, the sender raises, or it sends.
pub data Sender : Type 0 where
  no_sender raises sends : Sender

-- `_send_signal`, and whether the signal was sent.
unfoldable pub send_signal : Sender → Bool → Publisher → Bool × List Effect
send_signal sender present p =
    if not p.has_client || not p.connected then (false, []) else elim sender [
      | no_sender ↦ (false, signal_failed present ∷ [])
      | raises ↦ (false, signal_failed present ∷ [])
      | sends ↦ (true, signal_sent present ∷ [])
    ]

abbrev signal : Sender → Bool → Act
signal sender present p = (p, (send_signal sender present p).1)

-- `_cancel_phono_stop`
unfoldable pub cancel_phono_stop : Publisher → Publisher
cancel_phono_stop p = record p { phono_stop_task = none }

-- The end of `_commit_phono_stop` in the task `id`: its grace period is over, or it is cancelled.
unfoldable pub commit_phono_stop : ℕ → Bool → Act
unfolding publish
commit_phono_stop id cancelled p =
    let told = if not cancelled && p.has_stop_action then source_stopped phono ∷ [] else [] in
    let p' = if is_task p.phono_stop_task id then record p { phono_stop_task = none } else p in
    let (p'', effects) = publish p' in (p'', told ++ effects)

unfoldable pub set_distribution_enabled : Sender → Bool → Act
unfolding send_signal stop_streaming publish
set_distribution_enabled sender enabled p =
    let p' = record p { distribution_enabled = enabled } in
    if enabled then publish p' else (signal sender false >> stop_streaming >> publish) p'

abbrev set_device : Source → Bool → Publisher → Publisher
set_device phono enabled p = record p {
  phono_device = record p.phono_device { enabled = some enabled };
}
set_device bluetooth enabled p = record p {
  bluetooth_device = record p.bluetooth_device { enabled = some enabled };
}
set_device _ enabled p = p

unfoldable pub set_source_distribution_enabled : Sender → Source → Bool → Act
unfolding send_signal stop_streaming publish
set_source_distribution_enabled sender wanted enabled p =
    let p' = set_device wanted enabled p in
    if is_source wanted p.selected_source && not enabled
    then (signal sender false >> stop_streaming >> publish) p'
    else publish p'

-- In `select_source`, after its stop: the request is restored.
unfoldable pub selected : Source → Bool → Publisher → Publisher
unfolding reset_stream_activity
selected wanted requested p =
    record (reset_stream_activity (record p { selected_source = wanted })) {
      stream_requested = requested;
    }

-- The part of `select_source` that follows its guards.
unfoldable pub reselect : Source → Option String → Act
unfolding stop_streaming selected start_streaming publish
reselect wanted outcome p =
    let (p₁, stopped) = stop_streaming p in
    let (p₂, effects) =
      (emit (source_selected wanted)
          >> (if p.stream_requested then start_streaming outcome else skip)
          >> publish)
        (selected wanted p.stream_requested p₁) in
    (p₂, stopped ++ effects)

-- `select_source`; `none` is the `ValueError`.
unfoldable pub select_source : Source → Option String → Publisher → Option (Publisher × List Effect)
unfolding reselect
select_source wanted outcome p =
    if not (device p wanted).publishable
    then none
    else (if is_source wanted p.selected_source
        then some (p, [])
        else some (reselect wanted outcome p))

unfoldable pub distribution_allowed : Publisher → Bool
distribution_allowed p =
    p.distribution_enabled && enabled_or false (device p p.selected_source).enabled

-- The refusal of a start while the distribution is disabled.
unfoldable pub refuse_start : Sender → Act
unfolding send_signal stop_streaming
refuse_start sender p =
    (signal sender false >> stop_streaming >> emit (start_ignored p.selected_source)) p

-- The play command to the phone, given its result. The pause latch is released.
unfoldable pub play_media : Option String → Act
play_media media p =
    if is_source p.selected_source bluetooth && p.has_bluetooth_media
    then (
      record p { bluetooth_pause_latched = false; bluetooth_pause_observed = false },
      media_play ∷ (elim media [ none ↦ [] | some message ↦ media_failed message ∷ [] ]),
    )
    else (p, [])

-- The last part of a start: the pending stop is cancelled and the stream is started.
unfoldable pub proceed_start : Option String → Act
unfolding cancel_phono_stop start_streaming
proceed_start outcome p = start_streaming outcome (cancel_phono_stop p)

-- `_handle_server_command("start")`
unfoldable pub start_command : Sender → Option String → Option String → Act
unfolding distribution_allowed refuse_start play_media proceed_start
start_command sender media outcome p =
    (emit (command_received true)
        >> (if distribution_allowed p
            then (play_media media >> proceed_start outcome)
            else refuse_start sender))
      p

begin_phono_stop : Publisher → Publisher
begin_phono_stop p = record p { phono_stop_task = some p.next_task; next_task = p.next_task + 1 }

-- `_handle_server_command("stop")`
unfoldable pub stop_command : Act
unfolding stop_streaming begin_phono_stop publish
stop_command p =
    let (p₁, stopped) = stop_streaming p in
    let (p₂, effects) =
      if is_source p.selected_source phono then publish (begin_phono_stop p₁) else (p₁, []) in
    (p₂, command_received false ∷ (stopped ++ effects))

-- In `run`: the client is made and has connected.
unfoldable pub on_connected : Act
unfolding publish
on_connected p =
    (emit connected_event >> publish) (record p { has_client = true; connected = true })

-- In `run`: the connection is lost, or the daemon stops.
unfoldable pub on_connection_lost : Act
unfolding stop_streaming
on_connection_lost p = stop_streaming (record p { connected = false })

-- Then `_teardown` has given the client up.
unfoldable pub on_torn_down : Act
unfolding publish
on_torn_down p = (emit disconnected_event >> publish) (record p { has_client = false })

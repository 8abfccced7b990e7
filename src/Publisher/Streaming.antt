-- ===== src/Publisher/Streaming.antt =====
-- `SendspinSourcePublisher` (src/phono_console/sendspin_source.py): the stream and its retries.
use phono_console.Base.{
  ℕ, ◌+◌, String, Bool, true, false, not, ◌&&◌, ◌||◌, Option, none, some, [], ◌∷◌, ◌++◌, ◌==◌,
  if◌then◌else◌, is_some, ℤ, negsuc,
}
use phono_console.Detector.{reset_inactive}
use phono_console.Publisher.{
  Publisher, Act, ◌>>◌, emit, publish, stream_failed, stream_started, stream_stopped,
}

abbrev pub floor_dbfs : ℤ
floor_dbfs = negsuc 119

-- `_reset_stream_activity`, with -120 dB in whole decibels.
unfoldable pub reset_stream_activity : Publisher → Publisher
reset_stream_activity p = record p {
  detector = elim p.detector [ none ↦ none | some d ↦ some (reset_inactive d) ];
  activity_level_dbfs = floor_dbfs;
  activity_updated_at = none;
  activity_seen_present = false;
}

-- `_schedule_stream_retry`
unfoldable pub schedule_retry : Publisher → Publisher
schedule_retry p =
    if p.stream_requested && (p.connected && not (is_some p.stream_retry_task))
    then record p { stream_retry_task = some p.next_task; next_task = p.next_task + 1 }
    else p

-- `_start_streaming` up to its lock.
unfoldable pub request_start : Publisher → Publisher
request_start p = record p { stream_requested = true }

opened : Publisher → Publisher
unfolding reset_stream_activity
opened p =
    record (reset_stream_activity
      (record p { stream_error = none; streaming = true; last_feed_completed_at = none })) {
        stream_task = some p.next_task;
        next_task = p.next_task + 1;
      }

-- Its body, given how synchronising the clock and starting the capture went.
unfoldable pub open_stream : Option String → Act
unfolding opened publish schedule_retry
open_stream outcome p =
    if not p.has_client || is_some p.stream_task then (p, []) else elim outcome [
      | none ↦ (emit stream_started >> publish) (opened p)
      | some message ↦
          let (p', effects) =
            (emit (stream_failed message) >> publish) (record p { stream_error = some message }) in
          (schedule_retry p', effects)
    ]

unfoldable pub start_streaming : Option String → Act
unfolding request_start open_stream
start_streaming outcome p = open_stream outcome (request_start p)

-- `_stop_streaming` up to its lock.
unfoldable pub request_stop : Publisher → Publisher
request_stop p = record p { stream_requested = false; stream_retry_task = none }

-- The rest of it.
unfoldable pub close_stream : Act
unfolding publish
close_stream p =
    let p' = record p {
      stream_task = none;
      streaming = false;
      last_feed_completed_at = none;
      stream_error = none;
    } in
    if p.streaming then (emit stream_stopped >> publish) p' else (p', [])

unfoldable pub stop_streaming : Act
unfolding request_stop close_stream
stop_streaming p = close_stream (request_stop p)

abbrev pub is_task : Option ℕ → ℕ → Bool
is_task none id = false
is_task (some t) id = t == id

-- The error of the pump is kept while the stream is asked for.
note_failure : Option String → Act
note_failure none p = (p, [])
note_failure (some message) p =
    if p.stream_requested
    then (record p { stream_error = some message }, stream_failed message ∷ [])
    else (p, [])

-- The `finally` block of `_pump` for the task `id`, given its error; a cancelled task has none.
unfoldable pub pump_ended : ℕ → Option String → Act
unfolding reset_stream_activity publish schedule_retry note_failure
pump_ended id error p =
    if is_task p.stream_task id
    then (let (p₁, failed) =
          note_failure error (record p { stream_task = none; streaming = false }) in
        let (p₂, stopped) =
          if p.streaming
          then (emit stream_stopped >> publish) (reset_stream_activity p₁)
          else (p₁, []) in
        (if is_some error then schedule_retry p₂ else p₂, failed ++ stopped))
    else (p, [])

abbrev forget_retry : Publisher → Publisher
forget_retry p = record p { stream_retry_task = none }

-- A round of `_retry_stream` in the task `id`, when its sleep is over.
unfoldable pub retry_round : ℕ → Option String → Act
unfolding start_streaming
retry_round id outcome p =
    if is_task p.stream_retry_task id
    then (if p.stream_requested && p.connected
        then (let (p', effects) = start_streaming outcome p in
            (
              if is_some p'.stream_task || not (p'.stream_requested && p'.connected)
                  then forget_retry p'
                  else p',
              effects,
            ))
        else (forget_retry p, []))
    else (p, [])

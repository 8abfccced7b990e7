-- ===== src/Publisher/Steps/Sound.antt =====
-- `SendspinSourcePublisher` (src/phono_console/sendspin_source.py): what every step keeps.
use phono_console.Policy.{is_source}
use phono_console.Base.{
  ℕ, String, ◌≡◌, Bool, true, false, not, ◌&&◌, ◌||◌, Option, none, some, List, [], ◌∷◌, arith, ltb,
  if◌then◌else◌, is_some,
}
use phono_console.Detector.{same_bool}
use phono_console.Publisher.Steps.{
  after_select, step, steps, Step, started, stopped, distribution_set, source_distribution_set,
  source_wanted, stop_committed, connection_made, connection_lost, torn_down, pump_finished,
  retry_due, observed, fed, proceeded, start_asked, stream_opened, stop_asked, stream_closed,
}
use phono_console.Publisher.Commands.{
  selected, select_source, reselect, Sender, start_command, play_media, proceed_start, refuse_start,
  distribution_allowed,
}
use phono_console.Publisher.Streaming.{start_streaming, stop_streaming}
use phono_console.Publisher.{
  publish, skip, source_selected, device, Source, emit, ◌>>◌, Act, Effect, command_received,
  Publisher,
}

abbrev below : Option ℕ → ℕ → Bool
below none n = true
below (some t) n = ltb t n

-- The stream is on as long as its task is there, a retry is pending only for a stream that is asked
-- for over a connection, and the stream's task is older than the next one.
unfoldable pub is_sound : Publisher → Bool
is_sound p =
    same_bool p.streaming (is_some p.stream_task)
    && ((not (is_some p.stream_retry_task) || (p.stream_requested && p.connected))
        && below p.stream_task p.next_task)

play_media-is_sound :
    (media : Option String) (p : Publisher)
    → is_sound p ≡ true
    → is_sound (play_media media p).0 ≡ true
unfolding is_sound play_media
play_media-is_sound media p s = ground arith

start_streaming-is_sound :
    (outcome : Option String) (p : Publisher)
    → is_sound p ≡ true
    → is_sound (start_streaming outcome p).0 ≡ true
unfolding is_sound start_streaming
start_streaming-is_sound outcome p s = ground arith

proceed_start-is_sound :
    (outcome : Option String) (p : Publisher)
    → is_sound p ≡ true
    → is_sound (proceed_start outcome p).0 ≡ true
unfolding is_sound proceed_start
proceed_start-is_sound outcome p s = ground arith

refuse_start-is_sound :
    (to : Sender) (p : Publisher) → is_sound p ≡ true → is_sound (refuse_start to p).0 ≡ true
unfolding is_sound refuse_start
refuse_start-is_sound to p s = ground arith

emit_if-is_sound :
    (e : Effect) (b : Bool) (f g : Act) (p : Publisher)
    → is_sound (f p).0 ≡ true
    → is_sound (g p).0 ≡ true
    → is_sound ((emit e >> (if b then f else g)) p).0 ≡ true
emit_if-is_sound e true f g p h k = h
emit_if-is_sound e false f g p h k = k

start_command-is_sound :
    (to : Sender) (media outcome : Option String) (p : Publisher)
    → is_sound p ≡ true
    → is_sound (start_command to media outcome p).0 ≡ true
unfolding start_command
start_command-is_sound to media outcome p s =
    emit_if-is_sound (command_received true) (distribution_allowed p)
      (play_media media >> proceed_start outcome) (refuse_start to) p
      (proceed_start-is_sound outcome (play_media media p).0 (play_media-is_sound media p s))
      (refuse_start-is_sound to p s)

publish-is_sound : (p : Publisher) → is_sound p ≡ true → is_sound (publish p).0 ≡ true
unfolding is_sound publish
publish-is_sound p s = s

selected-is_sound :
    (wanted : Source) (requested : Bool) (p : Publisher)
    → is_sound (selected wanted requested (stop_streaming p).0) ≡ true
unfolding is_sound selected stop_streaming
selected-is_sound wanted requested p = ground arith

reselect-is_sound :
    (wanted : Source) (outcome : Option String) (p : Publisher)
    → is_sound (reselect wanted outcome p).0 ≡ true
unfolding reselect
reselect-is_sound wanted outcome p =
    let q = selected wanted p.stream_requested (stop_streaming p).0 in
    let h = selected-is_sound wanted p.stream_requested p in
    publish-is_sound
      ((emit (source_selected wanted)
          >> (if p.stream_requested then start_streaming outcome else skip))
        q).0
      (emit_if-is_sound (source_selected wanted) p.stream_requested (start_streaming outcome) skip q
        (start_streaming-is_sound outcome q h) h)

if_select-is_sound :
    (b c : Bool) (p q : Publisher) (effects : List Effect)
    → is_sound p ≡ true
    → is_sound q ≡ true
    → is_sound
        (after_select p (if b then none else (if c then some (p, []) else some (q, effects))))
      ≡ true
if_select-is_sound true c p q effects h k = h
if_select-is_sound false true p q effects h k = h
if_select-is_sound false false p q effects h k = k

select_source-is_sound :
    (wanted : Source) (outcome : Option String) (p : Publisher)
    → is_sound p ≡ true
    → is_sound (after_select p (select_source wanted outcome p)) ≡ true
unfolding select_source
select_source-is_sound wanted outcome p s =
    if_select-is_sound (not (device p wanted).publishable) (is_source wanted p.selected_source) p
      (reselect wanted outcome p).0 (reselect wanted outcome p).1 s
      (reselect-is_sound wanted outcome p)

pub step-is_sound : (t : Step) (p : Publisher) → is_sound p ≡ true → is_sound (step t p) ≡ true
unfolding is_sound step
step-is_sound (started to media outcome) p s = start_command-is_sound to media outcome p s
step-is_sound stopped p s = ground arith
step-is_sound (distribution_set to enabled) p s = ground arith
step-is_sound (source_distribution_set to wanted enabled) p s = ground arith
step-is_sound (source_wanted wanted outcome) p s = select_source-is_sound wanted outcome p s
step-is_sound (stop_committed id cancelled) p s = ground arith
step-is_sound connection_made p s = ground arith
step-is_sound connection_lost p s = ground arith
step-is_sound torn_down p s = ground arith
step-is_sound (pump_finished id error) p s = ground arith
step-is_sound (retry_due id outcome) p s = ground arith
step-is_sound (observed level now) p s = ground arith
step-is_sound (fed now) p s = ground arith
step-is_sound (proceeded outcome) p s = ground arith
step-is_sound start_asked p s = ground arith
step-is_sound (stream_opened outcome) p s = ground arith
step-is_sound stop_asked p s = ground arith
step-is_sound stream_closed p s = ground arith

-- Whatever the order of the steps, the parts of interrupted commands included: if it was so before,
-- the publisher streams exactly while the stream's task is there, a retry is pending only for a stream
-- that is asked for over a connection, and the stream's task is older than the next one.
pub steps-is_sound :
    (ss : List Step) (p : Publisher) → is_sound p ≡ true → is_sound (steps ss p) ≡ true
unfolding steps
steps-is_sound [] p s = s
steps-is_sound (t ∷ ss) p s = steps-is_sound ss (step t p) (step-is_sound t p s)

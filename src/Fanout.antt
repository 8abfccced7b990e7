-- ===== src/Fanout.antt =====
-- src/phono_console/audio_engine_client.py: `SourceMetrics` and `FrameFanout`, which hand the
-- engine's frames to bounded queues, and the reconnect delay of `AudioEngineClient.run`.
--
-- A dictionary over `AudioSource` is a record of channels, one for each source. A source's
-- subscriber set is a list of queues with a number each; number 0 is the primary queue, which is
-- subscribed from the start. The source iterates over a Python set, whose order is not fixed: what
-- happens to one queue does not depend on the others, and the counter of drops is a sum.
pub mod Bounds
pub mod Metrics
pub mod Delivery
pub mod Reconnect
pub mod Tests
use phono_console.Base.{
  ℕ, suc, ◌+◌, ◌-◌, ◌%◌, Bool, true, false, not, ◌||◌, Option, none, some, List, [], ◌∷◌, ◌++◌, map,
  ltb, leb, ◌==◌, if◌then◌else◌, length, drop, ℤ,
}
use phono_console.Base.Backoff.{doubled}
use mathlib.Core.Option
use phono_console.Protocol.{TimestampedPcm, AudioSource, phono, bluetooth, ma_return}

pub record SourceMetrics : Type 0 where
  pub received : ℕ
  pub dropped : ℕ
  pub discontinuities : ℕ
  pub sequence_gaps : ℕ
  pub last_sequence : Option ℕ
  pub last_epoch : Option ℕ
  pub last_timestamp_us : Option ℤ

abbrev pub new_metrics : SourceMetrics
new_metrics = record {
  received = 0;
  dropped = 0;
  discontinuities = 0;
  sequence_gaps = 0;
  last_sequence = none;
  last_epoch = none;
  last_timestamp_us = none;
}

abbrev pub Queue : Type 0
Queue = List TimestampedPcm

-- What the dictionaries of the fanout hold for one source.
pub record Channel : Type 0 where
  pub metrics : SourceMetrics
  pub subscribers : List (ℕ × Queue)
  pub primary_claimed : Bool
  pub history : Queue
  -- The number of the next secondary queue.
  pub next_id : ℕ

abbrev pub new_channel : Channel
new_channel = record {
  metrics = new_metrics;
  subscribers = (0, []) ∷ [];
  primary_claimed = false;
  history = [];
  next_id = 1;
}

pub record FrameFanout : Type 0 where
  pub queue_frames : ℕ
  pub phono_channel : Channel
  pub bluetooth_channel : Channel
  pub ma_return_channel : Channel

-- `__post_init__`; `none` is the `ValueError`.
unfoldable pub new_fanout : ℕ → Option FrameFanout
new_fanout n =
    if ltb n 2
    then none
    else some (record {
      queue_frames = n;
      phono_channel = new_channel;
      bluetooth_channel = new_channel;
      ma_return_channel = new_channel;
    })

-- `flags & FrameFlags.DISCONTINUITY` and `flags | FrameFlags.DISCONTINUITY`, on bit 0.
abbrev pub has_discontinuity : ℕ → Bool
has_discontinuity flags = flags % 2 == 1

abbrev pub set_discontinuity : ℕ → ℕ
set_discontinuity flags = flags + (1 - flags % 2)

abbrev pub differs : Option ℕ → ℕ → Bool
differs none n = false
differs (some m) n = not (n == m)

-- The counters that a published frame moves.
unfoldable pub count_frame : SourceMetrics → TimestampedPcm → SourceMetrics
count_frame m f =
    let discontinuous = has_discontinuity f.flags || differs m.last_epoch f.epoch in
    let gap = differs (Option.map suc m.last_sequence) f.sequence in
    record m {
      received = m.received + 1;
      discontinuities = if discontinuous then m.discontinuities + 1 else m.discontinuities;
      sequence_gaps =
          if discontinuous
          then m.sequence_gaps
          else (if gap then m.sequence_gaps + 1 else m.sequence_gaps);
      last_sequence = some f.sequence;
      last_epoch = some f.epoch;
      last_timestamp_us = some f.first_sample_time_us;
    }

abbrev pub drop_oldest : Queue → Queue
drop_oldest [] = []
drop_oldest (x ∷ xs) = xs

-- `queue.full()` for `maxsize = n`
abbrev pub is_full : ℕ → Queue → Bool
is_full n q = leb n (length q)

-- `deque(maxlen=n).append`
unfoldable pub append_bounded : ℕ → Queue → TimestampedPcm → Queue
append_bounded n q f = if is_full n q then drop_oldest q ++ (f ∷ []) else q ++ (f ∷ [])

-- The copy that `replace(frame, flags=frame.flags | FrameFlags.DISCONTINUITY)` makes.
abbrev pub marked : TimestampedPcm → TimestampedPcm
marked f = record f { flags = set_discontinuity f.flags }

-- One round of the delivery loop: the queue afterwards, and whether a frame was dropped.
unfoldable pub offer : ℕ → TimestampedPcm → Queue → Queue × Bool
offer n f q =
    if is_full n q then (drop_oldest q ++ (marked f ∷ []), true) else (q ++ (f ∷ []), false)

abbrev one_if : Bool → ℕ
one_if b = if b then 1 else 0

unfoldable pub deliver : ℕ → TimestampedPcm → List (ℕ × Queue) → List (ℕ × Queue) × ℕ
deliver n f [] = ([], 0)
deliver n f ((id, q) ∷ rest) =
    let (q', dropped) = offer n f q in
    let (rest', count) = deliver n f rest in ((id, q') ∷ rest', one_if dropped + count)

-- `publish` on the channel of the frame's source.
unfoldable pub publish_channel : ℕ → TimestampedPcm → Channel → Channel
publish_channel n f c =
    let m = count_frame c.metrics f in
    let (queues, count) = deliver n f c.subscribers in
    record c {
      metrics = record m { dropped = m.dropped + count };
      subscribers = queues;
      history = append_bounded n c.history f;
    }

abbrev pub channel : FrameFanout → AudioSource → Channel
channel s phono = s.phono_channel
channel s bluetooth = s.bluetooth_channel
channel s ma_return = s.ma_return_channel

abbrev pub set_channel : FrameFanout → AudioSource → Channel → FrameFanout
set_channel s phono c = record s { phono_channel = c }
set_channel s bluetooth c = record s { bluetooth_channel = c }
set_channel s ma_return c = record s { ma_return_channel = c }

unfoldable pub publish : TimestampedPcm → FrameFanout → FrameFanout
publish f s = set_channel s f.source (publish_channel s.queue_frames f (channel s f.source))

-- `history[-k:]` for k > 0
abbrev pub last_frames : ℕ → Queue → Queue
last_frames k q = drop (length q - k) q

abbrev replay_into : ℕ → Queue → Queue → Queue
replay_into n q [] = q
replay_into n q (f ∷ fs) = replay_into n (append_bounded n q f) fs

-- The fresh queue of a second reader, after the replay of the history.
pub initial_queue : ℕ → ℕ → Queue → Queue
initial_queue n replay history =
    if ltb 0 replay then replay_into n [] (last_frames replay history) else []

-- The start of `frames`: the primary queue for the first reader, else a fresh queue with the
-- last `replay` frames. Also returned: the number of the queue that is read.
unfoldable pub subscribe : ℕ → ℕ → Channel → Channel × ℕ
subscribe n replay c =
    if c.primary_claimed
    then (
      record c {
        subscribers = c.subscribers ++ ((c.next_id, initial_queue n replay c.history) ∷ []);
        next_id = c.next_id + 1;
      },
      c.next_id,
    )
    else (record c { primary_claimed = true }, 0)

-- `await queue.get()` with a frame at hand: `none` waits.
unfoldable pub receive_from : ℕ → List (ℕ × Queue) → List (ℕ × Queue) × Option TimestampedPcm
receive_from id [] = ([], none)
receive_from id ((j, q) ∷ rest) =
    let (rest', r) = receive_from id rest in
    if j == id
    then elim q [ [] ↦ ((j, []) ∷ rest, none) | f ∷ fs ↦ ((j, fs) ∷ rest, some f) ]
    else ((j, q) ∷ rest', r)

unfoldable pub receive : ℕ → Channel → Channel × Option TimestampedPcm
receive id c =
    let (queues, r) = receive_from id c.subscribers in (record c { subscribers = queues }, r)

abbrev empty_primary : List (ℕ × Queue) → List (ℕ × Queue)
empty_primary [] = []
empty_primary ((j, q) ∷ rest) = (j, if j == 0 then [] else q) ∷ empty_primary rest

abbrev discard : ℕ → List (ℕ × Queue) → List (ℕ × Queue)
discard id [] = []
discard id ((j, q) ∷ rest) =
    let rest' = discard id rest in if j == id then rest' else (j, q) ∷ rest'

-- The `finally` block of `frames`: the primary queue is emptied and kept, another is discarded.
unfoldable pub unsubscribe : ℕ → Channel → Channel
unsubscribe id c =
    if id == 0
    then record c { primary_claimed = false; subscribers = empty_primary c.subscribers }
    else record c { subscribers = discard id c.subscribers }

-- The wait before the next connection, in half seconds: 0.5 s after a connection, doubled up to
-- 10 s after each wait that ran out.
abbrev pub initial_retry : ℕ
initial_retry = 1

unfoldable pub next_retry : ℕ → ℕ
unfolding doubled
next_retry r = doubled 20 r

-- One round of the outer loop of `run`: whether the socket connected.
unfoldable pub reconnect_round : Bool → ℕ → ℕ
unfolding next_retry
reconnect_round connected r = next_retry (if connected then initial_retry else r)

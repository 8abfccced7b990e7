-- ===== src/Fanout/Bounds.antt =====
-- No queue and no history of `FrameFanout` (src/phono_console/audio_engine_client.py) outgrows
-- its bound, and the channels of the other sources are left alone.
use phono_console.Base.{
  ℕ, ◌-◌, ◌≤◌, ◌<◌, ◌≡◌, ◌≢◌, some, List, [], ◌∷◌, ◌++◌, arith, length, length-append, All,
  All-append,
}
use phono_console.Protocol.{TimestampedPcm, AudioSource}
use phono_console.Fanout.{
  Queue, Channel, FrameFanout, new_fanout, new_channel, append_bounded, offer, deliver,
  publish_channel, publish, channel, receive_from, receive, subscribe, unsubscribe, replay_into,
  empty_primary, discard, drop_oldest, last_frames, marked, initial_queue,
}

-- Every queue holds at most n frames.
abbrev pub QueuesFit : ℕ → List (ℕ × Queue) → Type 0
QueuesFit n queues = All (λ e. length e.1 ≤ n) queues

pub record IsBounded (n : ℕ) (c : Channel) : Type 0 where
  pub queues : QueuesFit n c.subscribers
  pub history : length c.history ≤ n

length-drop_oldest : (q : Queue) → length (drop_oldest q) ≡ length q - 1
length-drop_oldest [] = omega arith
length-drop_oldest (x ∷ xs) = omega arith

pub length-append_bounded :
    (n : ℕ) (q : Queue) (f : TimestampedPcm)
    → 0 < n
    → length q ≤ n
    → length (append_bounded n q f) ≤ n
unfolding append_bounded
length-append_bounded n q f p h =
    ground (
      arith,
      length-append q (f ∷ []),
      length-append (drop_oldest q) (f ∷ []),
      length-drop_oldest q,
    )

pub length-offer :
    (n : ℕ) (f : TimestampedPcm) (q : Queue) → 0 < n → length q ≤ n → length (offer n f q).0 ≤ n
unfolding offer
length-offer n f q p h = ground (
  arith,
  length-append q (f ∷ []),
  length-append (drop_oldest q) (marked f ∷ []),
  length-drop_oldest q,
)

deliver-QueuesFit :
    (n : ℕ) (f : TimestampedPcm) (queues : List (ℕ × Queue))
    → 0 < n
    → QueuesFit n queues
    → QueuesFit n (deliver n f queues).0
unfolding deliver
deliver-QueuesFit n f [] p h = tt
deliver-QueuesFit n f ((id, q) ∷ rest) p h =
    (length-offer n f q p h.0, deliver-QueuesFit n f rest p h.1)

pub publish_channel-IsBounded :
    (n : ℕ) (f : TimestampedPcm) (c : Channel)
    → 0 < n
    → IsBounded n c
    → IsBounded n (publish_channel n f c)
unfolding publish_channel
publish_channel-IsBounded n f c p h = record {
  queues = deliver-QueuesFit n f c.subscribers p h.queues;
  history = length-append_bounded n c.history f p h.history;
}

length-replay_into : (n : ℕ) (q fs : Queue) → 0 < n → length q ≤ n → length (replay_into n q fs) ≤ n
length-replay_into n q [] p h = h
length-replay_into n q (f ∷ fs) p h =
    length-replay_into n (append_bounded n q f) fs p (length-append_bounded n q f p h)

length-initial_queue :
    (n replay : ℕ) (history : Queue) → 0 < n → length (initial_queue n replay history) ≤ n
unfolding initial_queue
length-initial_queue n replay history p =
    ground (arith, length-replay_into n [] (last_frames replay history) p)

pub subscribe-IsBounded :
    (n replay : ℕ) (c : Channel) → 0 < n → IsBounded n c → IsBounded n (subscribe n replay c).0
unfolding subscribe
subscribe-IsBounded n replay c p h =
    let grown : QueuesFit n
        (c.subscribers ++ ((c.next_id, initial_queue n replay c.history) ∷ [])) =
      All-append (λ (e : ℕ × Queue). length e.1 ≤ n) c.subscribers _ h.queues
        (length-initial_queue n replay c.history p, tt) in
    ground arith

receive_from-QueuesFit :
    (n id : ℕ) (queues : List (ℕ × Queue))
    → QueuesFit n queues
    → QueuesFit n (receive_from id queues).0
unfolding receive_from
receive_from-QueuesFit n id [] h = tt
receive_from-QueuesFit n id ((j, []) ∷ rest) h =
    ground (arith, receive_from-QueuesFit n id rest h.1)
receive_from-QueuesFit n id ((j, f ∷ fs) ∷ rest) h =
    ground (arith, receive_from-QueuesFit n id rest h.1)

pub receive-IsBounded : (n id : ℕ) (c : Channel) → IsBounded n c → IsBounded n (receive id c).0
unfolding receive
receive-IsBounded n id c h = record {
  queues = receive_from-QueuesFit n id c.subscribers h.queues;
  history = h.history;
}

empty_primary-QueuesFit :
    (n : ℕ) (queues : List (ℕ × Queue)) → QueuesFit n queues → QueuesFit n (empty_primary queues)
empty_primary-QueuesFit n [] h = tt
empty_primary-QueuesFit n ((j, q) ∷ rest) h = (ground arith, empty_primary-QueuesFit n rest h.1)

discard-QueuesFit :
    (n id : ℕ) (queues : List (ℕ × Queue)) → QueuesFit n queues → QueuesFit n (discard id queues)
discard-QueuesFit n id [] h = tt
discard-QueuesFit n id ((j, q) ∷ rest) h = ground (arith, discard-QueuesFit n id rest h.1)

pub unsubscribe-IsBounded :
    (n id : ℕ) (c : Channel) → IsBounded n c → IsBounded n (unsubscribe id c)
unfolding unsubscribe
unsubscribe-IsBounded n id c h = ground (
  arith,
  empty_primary-QueuesFit n c.subscribers h.queues,
  discard-QueuesFit n id c.subscribers h.queues,
)

-- A published frame reaches the channel of its source only.
pub channel-publish :
    (f : TimestampedPcm) (s : FrameFanout) (a : AudioSource)
    → ((a ≡ f.source) → channel (publish f s) a ≡ publish_channel s.queue_frames f (channel s a))
      × ((a ≢ f.source) → channel (publish f s) a ≡ channel s a)
unfolding publish
channel-publish f s a = ((λ h. ground arith), (λ h. ground arith))

-- What can happen to the channel of one source.
pub data Action : Type 0 where
  published : TimestampedPcm → Action
  subscribed : ℕ → Action
  received unsubscribed : ℕ → Action

unfoldable pub act : ℕ → Action → Channel → Channel
act n (published f) c = publish_channel n f c
act n (subscribed replay) c = (subscribe n replay c).0
act n (received id) c = (receive id c).0
act n (unsubscribed id) c = unsubscribe id c

pub act_all : ℕ → List Action → Channel → Channel
act_all n [] c = c
act_all n (a ∷ actions) c = act_all n actions (act n a c)

act-IsBounded : (n : ℕ) (a : Action) (c : Channel) → 0 < n → IsBounded n c → IsBounded n (act n a c)
unfolding act
act-IsBounded n (published f) c p h = publish_channel-IsBounded n f c p h
act-IsBounded n (subscribed replay) c p h = subscribe-IsBounded n replay c p h
act-IsBounded n (received id) c p h = receive-IsBounded n id c h
act-IsBounded n (unsubscribed id) c p h = unsubscribe-IsBounded n id c h

act_all-IsBounded :
    (n : ℕ) (actions : List Action) (c : Channel)
    → 0 < n
    → IsBounded n c
    → IsBounded n (act_all n actions c)
unfolding act_all
act_all-IsBounded n [] c p h = h
act_all-IsBounded n (a ∷ actions) c p h =
    act_all-IsBounded n actions (act n a c) p (act-IsBounded n a c p h)

new_fanout_size : (n : ℕ) (s : FrameFanout) → new_fanout n ≡ some s → 0 < n
unfolding new_fanout
new_fanout_size n s h = ground arith

new_fanout-channel :
    (n : ℕ) (s : FrameFanout) (a : AudioSource) → new_fanout n ≡ some s → channel s a ≡ new_channel
unfolding new_fanout
new_fanout-channel n s a h = ground arith

-- From a constructed fanout, whatever happens to the channel of a source (frames published, readers
-- subscribed with a replay, frames read, readers released) and in whatever order, no queue and no
-- history of it ever holds more than `queue_frames`.
pub fanout-IsBounded :
    (n : ℕ) (s : FrameFanout) (a : AudioSource) (actions : List Action)
    → new_fanout n ≡ some s
    → IsBounded n (act_all n actions (channel s a))
fanout-IsBounded n s a actions h = rw (new_fanout-channel n s a h) (
    act_all-IsBounded n actions new_channel (new_fanout_size n s h)
      (record { queues = (omega arith, tt); history = omega arith }))

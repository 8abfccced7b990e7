-- ===== src/Fanout/Tests.antt =====
-- Tests of src/phono_console/audio_engine_client.py, and the properties at concrete frames.
use phono_console.Base.{
  ◌+◌, ℕ, ◌≡◌, refl, none, some, List, [], ◌∷◌, ◌++◌, map, arith, take_last, pos,
}
use phono_console.Protocol.{TimestampedPcm, phono}
use phono_console.Fanout.{
  SourceMetrics, Channel, FrameFanout, new_metrics, new_channel, new_fanout, count_frame, offer,
  marked,
}
use phono_console.Fanout.Bounds.{
  IsBounded, fanout-IsBounded, act_all, Action, published, subscribed, received, unsubscribed,
}
use phono_console.Fanout.Metrics.{Stream}
use phono_console.Fanout.Delivery.{
  bare, Numbered, offer_all, offer_all-take_last, overflow_mark_misplaced,
}

-- An empty frame of epoch 1 with this sequence number.
abbrev frame : ℕ → TimestampedPcm
frame n = record {
  source = phono;
  flags = 0;
  sequence = n;
  first_sample_time_us = pos 0;
  source_rate_hz = 48000;
  output_rate_hz = 48000;
  channels = 2;
  frames = 0;
  reported_transport_delay_us = pos 0;
  epoch = 1;
  pcm = [];
}

abbrev after_four : SourceMetrics
after_four = record new_metrics { received = 1; last_sequence = some 4; last_epoch = some 1 }

abbrev later_channel : Channel
later_channel = record new_channel { metrics = after_four }

abbrev two_frames : FrameFanout
two_frames = record {
  queue_frames = 2;
  phono_channel = new_channel;
  bluetooth_channel = new_channel;
  ma_return_channel = new_channel;
}

too_small_test : new_fanout 1 ≡ none
unfolding new_fanout
too_small_test = refl

constructed : new_fanout 2 ≡ some two_frames
unfolding new_fanout
constructed = refl

overflow_test : (offer 2 (frame 3) (frame 1 ∷ frame 2 ∷ [])).0 ≡ frame 2 ∷ marked (frame 3) ∷ []
unfolding offer
overflow_test = refl

gap_test : (count_frame after_four (frame 6)).sequence_gaps ≡ 1
unfolding count_frame
gap_test = refl

abbrev actions : List Action
actions =
    subscribed 0
    ∷ published (frame 1)
    ∷ published (frame 2)
    ∷ subscribed 2
    ∷ published (frame 3)
    ∷ received 1
    ∷ unsubscribed 1
    ∷ []

fanout-IsBounded_example : IsBounded 2 (act_all 2 actions new_channel)
fanout-IsBounded_example = fanout-IsBounded 2 two_frames phono actions constructed

stream : Stream 4 1 (frame 5 ∷ frame 6 ∷ [])
stream = (
  record { next = refl; same_epoch = refl; unmarked = refl },
  (record { next = refl; same_epoch = refl; unmarked = refl }, tt),
)

offer_all-take_last_example :
    map bare (offer_all 2 (frame 2 ∷ frame 3 ∷ []) (frame 1 ∷ [])).0
    ≡ take_last 2 (map bare (frame 1 ∷ []) ++ map bare (frame 2 ∷ frame 3 ∷ []))
offer_all-take_last_example =
    offer_all-take_last 2 (frame 2 ∷ frame 3 ∷ []) (frame 1 ∷ []) (omega arith) (omega arith)

overflow_mark_misplaced_example :
    (offer_all 3 (frame 4 ∷ frame 5 ∷ []) (frame 1 ∷ frame 2 ∷ frame 3 ∷ [])
      ≡ (frame 3 ∷ ([] ++ (marked (frame 4) ∷ marked (frame 5) ∷ [])), 2))
    × (◌≡◌ {A = ℕ} 3 (1 + 2))
    × Numbered 4 ([] ++ (marked (frame 4) ∷ marked (frame 5) ∷ []))
overflow_mark_misplaced_example =
    overflow_mark_misplaced 3 1 (frame 1 ∷ frame 2 ∷ []) [] (frame 4 ∷ frame 5 ∷ []) (frame 3) refl
      refl (refl, (refl, (refl, (refl, (refl, tt)))))

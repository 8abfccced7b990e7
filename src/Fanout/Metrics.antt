-- ===== src/Fanout/Metrics.antt =====
-- The counters of `SourceMetrics` (src/phono_console/audio_engine_client.py).
use phono_console.Base.{
  ℕ, suc, ◌+◌, ◌≡◌, refl, ◌∙◌, ◌⊎◌, inl, inr, false, some, List, [], ◌∷◌, arith, ◌==◌, Bool-cases,
  length,
}
use phono_console.Protocol.{TimestampedPcm}
use phono_console.Fanout.{SourceMetrics, Channel, count_frame, publish_channel, has_discontinuity}

-- The frame continues the stream whose last frame had this sequence number and epoch.
pub record Continues (sequence epoch : ℕ) (f : TimestampedPcm) : Type 0 where
  pub next : f.sequence ≡ sequence + 1
  pub same_epoch : f.epoch ≡ epoch
  pub unmarked : has_discontinuity f.flags ≡ false

-- After the first frame, a frame that continues the stream moves neither error counter, and any
-- other moves exactly one of them by one.
pub count_frame_exact :
    (m : SourceMetrics) (f : TimestampedPcm) (s e : ℕ)
    → m.last_sequence ≡ some s
    → m.last_epoch ≡ some e
    → let m' = count_frame m f in
      (Continues s e f
        × (m'.discontinuities ≡ m.discontinuities)
        × (m'.sequence_gaps ≡ m.sequence_gaps))
      ⊎ ((¬ (Continues s e f))
          × (m'.discontinuities + m'.sequence_gaps ≡ m.discontinuities + m.sequence_gaps + 1))
unfolding count_frame
count_frame_exact m f s e hs he = elim (Bool-cases (f.sequence == suc s)) [
  | inl a ↦ elim (Bool-cases (has_discontinuity f.flags)) [
    | inl b ↦ inr (λ c. cc (c.unmarked), ground arith)
    | inr b ↦ elim (Bool-cases (f.epoch == e)) [
      | inl d ↦ inl (
        record { next = ground arith; same_epoch = ground arith; unmarked = b },
        ground arith,
        ground arith,
      )
      | inr d ↦ inr (λ c. ground (arith, c.same_epoch), ground arith)
    ]
  ]
  | inr a ↦ inr (λ c. ground (arith, c.next), ground arith)
]

pub publish_all : ℕ → List TimestampedPcm → Channel → Channel
publish_all n [] c = c
publish_all n (f ∷ fs) c = publish_all n fs (publish_channel n f c)

received-publish_channel :
    (n : ℕ) (f : TimestampedPcm) (c : Channel)
    → (publish_channel n f c).metrics.received ≡ c.metrics.received + 1
unfolding publish_channel count_frame
received-publish_channel n f c = refl

-- Every published frame is counted, whatever the queues do.
pub received-publish_all :
    (n : ℕ) (fs : List TimestampedPcm) (c : Channel)
    → (publish_all n fs c).metrics.received ≡ c.metrics.received + length fs
unfolding publish_all
received-publish_all n [] c = omega arith
received-publish_all n (f ∷ fs) c =
    omega (arith, received-publish_channel n f c, received-publish_all n fs (publish_channel n f c))

-- A stream that continues from frame to frame.
abbrev pub Stream : ℕ → ℕ → List TimestampedPcm → Type 0
Stream s e [] = Unit
Stream s e (f ∷ fs) = Continues s e f × Stream (s + 1) e fs

continue-publish_channel :
    (n s e : ℕ) (f : TimestampedPcm) (c : Channel)
    → Continues s e f
    → c.metrics.last_sequence ≡ some s
    → c.metrics.last_epoch ≡ some e
    → let m = (publish_channel n f c).metrics in
      (m.last_sequence ≡ some (s + 1))
      × (m.last_epoch ≡ some e)
      × (m.discontinuities ≡ c.metrics.discontinuities)
      × (m.sequence_gaps ≡ c.metrics.sequence_gaps)
unfolding publish_channel count_frame
continue-publish_channel n s e f c h hs he = ground (arith, h.next, h.same_epoch, h.unmarked)

-- Once a frame has been counted, a stream in which every frame continues the one before raises neither
-- the counter of discontinuities nor that of gaps, however long it is.
pub publish_all-Stream :
    (n s e : ℕ) (fs : List TimestampedPcm) (c : Channel)
    → c.metrics.last_sequence ≡ some s
    → c.metrics.last_epoch ≡ some e
    → Stream s e fs
    → ((publish_all n fs c).metrics.discontinuities ≡ c.metrics.discontinuities)
      × ((publish_all n fs c).metrics.sequence_gaps ≡ c.metrics.sequence_gaps)
unfolding publish_all
publish_all-Stream n s e [] c hs he h = (refl, refl)
publish_all-Stream n s e (f ∷ fs) c hs he h =
    let (last, epoch, same, gaps) = continue-publish_channel n s e f c h.0 hs he in
    let (a, b) = publish_all-Stream n (s + 1) e fs (publish_channel n f c) last epoch h.1 in
    (a ∙ same, b ∙ gaps)

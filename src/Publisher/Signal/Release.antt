-- ===== src/Publisher/Signal/Release.antt =====
-- `SendspinSourcePublisher._watch_signal` (src/phono_console/sendspin_source.py): how the reported
-- signal follows silence and a disabled distribution.
use phono_console.Base.{
  ℕ, ◌+◌, ◌≤◌, ◌<◌, ◌≡◌, refl, Bool, true, false, ◌&&◌, Option, none, some, List, [], ◌∷◌, ◌++◌,
  map, arith, ltb, All,
}
use phono_console.Controller.{Status}
use phono_console.Publisher.{device, enabled_or, Publisher, Effect, signal_sent}
use phono_console.Publisher.Commands.{Sender}
use phono_console.Publisher.Signal.{Watch, MediaStatus, watch_round, sense_line, is_present}

-- The level of each silent round at these times, where each report goes through.
unfoldable pub silent_rounds : ℕ → List ℕ → Watch → List Bool
unfolding sense_line
silent_rounds release [] w = []
silent_rounds release (now ∷ rest) w =
    let r = sense_line release now true false w in
    r.0 ∷ silent_rounds release rest (record { last = some r.0; absent_since = r.1 })

ltb_of_lt : (a b : ℕ) → a < b → ltb a b ≡ true
ltb_of_lt a b h = ground arith

ltb_of_le : (a b : ℕ) → b ≤ a → ltb a b ≡ false
ltb_of_le a b h = ground arith

silent_absent :
    (release : ℕ) (ts : List ℕ) (w : Watch)
    → is_present w.last ≡ false
    → silent_rounds release ts w ≡ map (λ t. false) ts
unfolding silent_rounds
silent_absent release [] w h = refl
silent_absent release (t ∷ ts) w h = rw h (
    rw
      (silent_absent release ts (record { last = some false; absent_since = w.absent_since }) refl))

abbrev holding : ℕ → Watch
holding start = record { last = some true; absent_since = some start }

silent_held :
    (release start : ℕ) (early late : List ℕ) (over : ℕ)
    → All (λ t. t < start + release) early
    → start + release ≤ over
    → silent_rounds release (early ++ over ∷ late) (holding start)
      ≡ map (λ t. true) early ++ false ∷ map (λ t. false) late
unfolding silent_rounds
silent_held release start [] late over h k =
    rw (ltb_of_le over (start + release) k) (
      rw
        (silent_absent release late (record { last = some false; absent_since = some start }) refl))
silent_held release start (t ∷ early) late over h k =
    rw (ltb_of_lt t (start + release) h.0) (rw (silent_held release start early late over h.1 k))

-- With a positive release time, and after a round that was present, silence from `start` on is
-- reported as present in every round before it has lasted for the release time, and as absent from
-- the first later round on, whatever follows.
pub release_kept :
    (release start : ℕ) (early late : List ℕ) (over : ℕ)
    → 0 < release
    → All (λ t. t < start + release) early
    → start + release ≤ over
    → silent_rounds release
        (start ∷ early ++ over ∷ late)
        (record { last = some true; absent_since = none })
      ≡ map (λ t. true) (start ∷ early) ++ false ∷ map (λ t. false) late
unfolding silent_rounds
release_kept release start early late over r h k =
    rw (ltb_of_lt start (start + release) (omega arith))
      (rw (silent_held release start early late over h k))

-- A report of a signal that is present.
unfoldable pub reports : List Effect → Bool
reports [] = false
reports (signal_sent true ∷ es) = true
reports (e ∷ es) = reports es

-- While the distribution, or that of the selected source, is disabled, a round never reports a signal.
pub watch_disabled :
    (release : ℕ) (status : Option Status) (media : Option MediaStatus) (to : Sender) (now : ℕ)
    (p : Publisher) (w : Watch)
    → p.distribution_enabled && enabled_or true (device p p.selected_source).enabled ≡ false
    → reports (watch_round release status media to now p w).2 ≡ false
unfolding watch_round reports
watch_disabled release status media to now p w h = ground arith

-- ===== src/Playback/Children.antt =====
-- The children of `TimestampedLocalPlayback` (src/phono_console/audio_engine_playback.py).
use phono_console.Base.{
  ◌&&◌, refl, ℕ, ◌+◌, String, ◌≡◌, Bool, true, false, Option, none, some, List, [], ◌∷◌, arith,
  if◌then◌else◌, is_some, ℤ,
}
use phono_console.Playback.{
  Playback, Effect, spawned, process_stopped, Launch, without_input, start, stop, pump_ended,
}

-- What happens to the playback; `exited` is the end of the child.
pub data Event : Type 0 where
  started : Launch → ℕ → Event
  stopped : Event
  pumped : Option String → Event
  exited : ℤ → Event

abbrev gone : ℤ → Option (Option ℤ) → Option (Option ℤ)
gone code none = none
gone code (some c) = some (some code)

unfoldable pub happen : Event → Playback → Playback × List Effect
unfolding start stop pump_ended
happen (started outcome now) p = let (p', raised, effects) = start outcome now p in (p', effects)
happen stopped p = stop p
happen (pumped error) p = pump_ended error p
happen (exited code) p = (record p { process = gone code p.process }, [])

unfoldable pub spawns : List Effect → ℕ
spawns [] = 0
spawns (spawned ∷ es) = 1 + spawns es
spawns (e ∷ es) = spawns es

unfoldable pub stops : List Effect → ℕ
stops [] = 0
stops (process_stopped ∷ es) = 1 + stops es
stops (e ∷ es) = stops es

abbrev pub held : Playback → ℕ
held p = if is_some p.process then 1 else 0

-- The children that were launched and those that were stopped, over a series of events.
unfoldable pub launched : List Event → Playback → ℕ
unfolding happen spawns
launched [] p = 0
launched (e ∷ es) p = let r = happen e p in spawns r.1 + launched es r.0

unfoldable pub ended : List Event → Playback → ℕ
unfolding happen stops
ended [] p = 0
ended (e ∷ es) p = let r = happen e p in stops r.1 + ended es r.0

unfoldable pub after : List Event → Playback → Playback
unfolding happen
after [] p = p
after (e ∷ es) p = after es (happen e p).0

-- No child comes without an input; aplay is started with a pipe.
unfoldable pub is_piped : Event → Bool
is_piped (started without_input now) = false
is_piped e = true

unfoldable pub all_piped : List Event → Bool
unfolding is_piped
all_piped [] = true
all_piped (e ∷ es) = is_piped e && all_piped es

happen-held :
    (e : Event) (p : Playback)
    → is_piped e ≡ true
    → held p + spawns (happen e p).1 ≡ held (happen e p).0 + stops (happen e p).1
unfolding happen spawns stops is_piped
happen-held (started outcome now) p h = ground arith
happen-held stopped p h = ground arith
happen-held (pumped error) p h = ground arith
happen-held (exited code) p h = ground arith

-- Whatever the starts, stops, failures of the pump and ends of the child, where every child has an
-- input: each child that was launched has been stopped, but for the one that is held.
pub launched-ended :
    (es : List Event) (p : Playback)
    → all_piped es ≡ true
    → held p + launched es p ≡ held (after es p) + ended es p
unfolding launched ended after all_piped
launched-ended [] p h = refl
launched-ended (e ∷ es) p h =
    let first = happen-held e p (ground (arith, h)) in
    let rest = launched-ended es (happen e p).0 (ground (arith, h)) in
    sum (held p) (spawns (happen e p).1) (launched es (happen e p).0) (held (happen e p).0)
      (stops (happen e p).1) (held (after es (happen e p).0)) (ended es (happen e p).0) first rest
  where
    sum : (a b c d e f g : ℕ) → a + b ≡ d + e → d + c ≡ f + g → a + (b + c) ≡ f + (e + g)
    sum a b c d e f g h k = omega arith

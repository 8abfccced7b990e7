-- ===== src/Fanout/Reconnect.antt =====
-- The reconnect delay of `AudioEngineClient.run` (src/phono_console/audio_engine_client.py).
use Prim.Native.Nat.{min}
use phono_console.Base.{ℕ, zero, suc, ◌^◌, ◌≤◌, ◌≡◌, refl, Bool, true, false, List, [], ◌∷◌, arith}
use phono_console.Base.Backoff.{doubled, repeat_doubled, repeat_doubled-pow}
use phono_console.Fanout.{initial_retry, reconnect_round}

-- The delay after a series of rounds, each with whether it connected.
pub delays : List Bool → ℕ → ℕ
delays [] r = r
delays (connected ∷ rounds) r = delays rounds (reconnect_round connected r)

pub record InRange (r : ℕ) : Type 0 where
  pub positive : 1 ≤ r
  pub capped : r ≤ 20

round-InRange : (connected : Bool) (r : ℕ) → InRange r → InRange (reconnect_round connected r)
unfolding reconnect_round
round-InRange connected r h = ground arith

-- The wait stays between half a second and ten seconds, whatever the rounds were.
pub delays-InRange : (rounds : List Bool) (r : ℕ) → InRange r → InRange (delays rounds r)
unfolding delays
delays-InRange [] r h = h
delays-InRange (c ∷ rounds) r h = delays-InRange rounds (reconnect_round c r) (round-InRange c r h)

abbrev pub failures : ℕ → List Bool
failures zero = []
failures (suc k) = false ∷ failures k

delays-failures_doubled : (k r : ℕ) → delays (failures k) r ≡ repeat_doubled 20 k r
unfolding delays reconnect_round repeat_doubled
delays-failures_doubled zero r = refl
delays-failures_doubled (suc k) r = delays-failures_doubled k (doubled 20 r)

-- After a round that connected and k rounds that failed, the wait is 2 ^ (k + 1) half seconds, and
-- at most ten seconds.
pub delays-failures : (k r : ℕ) → delays (true ∷ failures k) r ≡ min (2 ^ suc k) 20
unfolding delays reconnect_round repeat_doubled
delays-failures k r =
    let closed = repeat_doubled-pow 20 (suc k) initial_retry (omega arith) in
    omega (arith, delays-failures_doubled k (doubled 20 initial_retry), closed)

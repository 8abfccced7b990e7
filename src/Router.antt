-- ===== src/Router.antt =====
-- src/phono_console/router.py: `ProcessAudioRouter`, which hands the exclusive output device from
-- one loopback process to another.
--
-- A loopback is outside this file (`processes.ManagedProcess`, or the timestamped playback): the
-- model keeps whether it runs. `stop` leaves it stopped and `start` leaves it running, unless the
-- call raises: then it is as it was, and the rest of the router's operation is not carried out.
pub mod Exclusive
pub mod Tests
use phono_console.Base.{Bool, true, false, not, ◌&&◌, List, [], ◌∷◌, ◌++◌, if◌then◌else◌}
use phono_console.Policy.{
  Route, local_phono, local_bluetooth, ma_playback, distributed_phono, distributed_bluetooth,
  is_route,
}

pub data Loopback : Type 0 where
  phono_loop bluetooth_loop ma_loop : Loopback

pub data Operation : Type 0 where
  stop start : Loopback → Operation

-- `bluetooth_loopback` and `ma_loopback` may be absent.
pub record Router : Type 0 where
  pub has_bluetooth : Bool
  pub has_ma : Bool

abbrev pub ma_needed : Route → Bool
ma_needed ma_playback = true
ma_needed distributed_phono = true
ma_needed distributed_bluetooth = true
ma_needed _ = false

abbrev only_if : Bool → Operation → List Operation
only_if true o = o ∷ []
only_if false o = []

-- The calls of `apply`, in order: every other loopback is stopped before the needed one starts.
-- `reconcile` is `apply`.
unfoldable pub apply : Router → Route → List Operation
apply r route =
    only_if (not (is_route route local_phono)) (stop phono_loop)
    ++ (only_if (r.has_bluetooth && not (is_route route local_bluetooth)) (stop bluetooth_loop)
        ++ (only_if (r.has_ma && not (ma_needed route)) (stop ma_loop)
            ++ (if is_route route local_phono
                then start phono_loop ∷ []
                else (if is_route route local_bluetooth && r.has_bluetooth
                    then start bluetooth_loop ∷ []
                    else only_if (ma_needed route && r.has_ma) (start ma_loop)))))

unfoldable pub close : Router → List Operation
close r =
    stop phono_loop
    ∷ (only_if r.has_bluetooth (stop bluetooth_loop) ++ only_if r.has_ma (stop ma_loop))

-- Which loopbacks run.
pub record Running : Type 0 where
  pub phono : Bool
  pub bluetooth : Bool
  pub ma : Bool

abbrev set_running : Loopback → Bool → Running → Running
set_running phono_loop b s = record s { phono = b }
set_running bluetooth_loop b s = record s { bluetooth = b }
set_running ma_loop b s = record s { ma = b }

abbrev pub perform : Operation → Running → Running
perform (stop l) s = set_running l false s
perform (start l) s = set_running l true s

-- The states that an operation list goes through, given which calls raise; the first list member
-- is the state before it.
unfoldable pub trace : (Operation → Bool) → List Operation → Running → List Running
trace raises [] s = s ∷ []
trace raises (o ∷ os) s =
    let rest = trace raises os (perform o s) in if raises o then s ∷ s ∷ [] else s ∷ rest

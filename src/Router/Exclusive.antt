-- ===== src/Router/Exclusive.antt =====
-- The output device has one owner at a time (src/phono_console/router.py).
use phono_console.Base.{
  ℕ, ◌+◌, ◌≤◌, ◌≡◌, Bool, false, ◌&&◌, List, [], ◌∷◌, arith, if◌then◌else◌, All,
}
use phono_console.Policy.{Route, local_phono, local_bluetooth, is_route}
use phono_console.Router.{Router, Operation, Running, apply, close, trace, ma_needed}

abbrev pub one : Bool → ℕ
one b = if b then 1 else 0

-- At most one loopback holds the device.
abbrev pub IsExclusive : Running → Type 0
IsExclusive s = one s.phono + one s.bluetooth + one s.ma ≤ 1

-- An absent loopback does not run.
pub record Fits (r : Router) (s : Running) : Type 0 where
  pub bluetooth_known : r.has_bluetooth ≡ false → s.bluetooth ≡ false
  pub ma_known : r.has_ma ≡ false → s.ma ≡ false

-- Where at most one loopback runs, and absent ones do not, at most one runs after every call of
-- `apply`, also where one of them raises and the rest is not carried out.
pub apply-IsExclusive :
    (r : Router) (route : Route) (raises : Operation → Bool) (s : Running)
    → Fits r s
    → IsExclusive s
    → All IsExclusive (trace raises (apply r route) s)
unfolding apply trace
apply-IsExclusive r route raises s f h = ground (arith, f.bluetooth_known, f.ma_known)

abbrev pub last_state : Running → List Running → Running
last_state s [] = s
last_state s (t ∷ ts) = last_state t ts

abbrev pub no_failure : Operation → Bool
no_failure o = false

-- What runs once a route has been applied.
abbrev pub serving : Router → Route → Running
serving r route = record {
  phono = is_route route local_phono;
  bluetooth = is_route route local_bluetooth && r.has_bluetooth;
  ma = ma_needed route && r.has_ma;
}

-- Where no call raises and absent loopbacks do not run, exactly the loopback that serves the route, if
-- it is present, runs after `apply`, whatever ran before.
pub apply-serving :
    (r : Router) (route : Route) (s : Running)
    → Fits r s
    → last_state s (trace no_failure (apply r route) s) ≡ serving r route
unfolding apply trace
apply-serving r route s f = ground (arith, f.bluetooth_known, f.ma_known)

-- `close` leaves nothing running.
pub close-silent :
    (r : Router) (s : Running)
    → Fits r s
    → last_state s (trace no_failure (close r) s)
      ≡ record { phono = false; bluetooth = false; ma = false }
unfolding close trace
close-silent r s f = ground (arith, f.bluetooth_known, f.ma_known)

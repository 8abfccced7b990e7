-- ===== src/Controller/Tick.antt =====
-- `Controller.tick` (src/phono_console/controller.py), composed of its parts, and a series of
-- ticks, as `Controller.run` makes them.
use phono_console.Base.{ℕ, List, [], ◌∷◌, ◌++◌}
use phono_console.Policy.{Route}
use phono_console.Controller.{Settings, Controller, Environment, Action, Status}
use phono_console.Controller.Sense.{sense, preactivate, Sensing, Preactivation}
use phono_console.Controller.Modes.{modes, Modes}
use phono_console.Controller.Bluetooth.{listen, Listening}
use phono_console.Controller.Distribution.{distribute, Distribution}
use phono_console.Controller.Decide.{decide}
use phono_console.Controller.Commit.{commit}

-- Everything that a tick has computed when it commits its route.
pub record Course : Type 0 where
  pub sensing : Sensing
  pub preactivation : Preactivation
  pub modes : Modes
  pub listening : Listening
  pub distribution : Distribution
  pub desired : Route
  -- The state in which the desired route is chosen, and the one in which it is committed.
  pub considered : Controller
  pub decided : Controller
  pub actions : List Action

-- `tick` up to line 513.
unfoldable pub course : Settings → Environment → ℕ → Controller → Course
course s e now c =
    let (c₁, x, a₁) = sense s e now c in
    let (p, a₂) = preactivate s e c₁ x in
    let (c₂, m, a₃) = modes s e now c₁ x in
    let (c₃, b, a₄) = listen s e now c₂ x in
    let (c₄, d, a₅) = distribute s e now m.output_mode x b c₃ in
    let (c₅, desired, a₆) = decide s e x m b d c₄ in
    record {
      sensing = x;
      preactivation = p;
      modes = m;
      listening = b;
      distribution = d;
      desired = desired;
      considered = c₄;
      decided = c₅;
      actions = a₁ ++ (a₂ ++ (a₃ ++ (a₄ ++ (a₅ ++ a₆))));
    }

unfoldable pub tick : Settings → Environment → ℕ → Controller → Controller × Status × List Action
tick s e now c =
    let k = course s e now c in
    let (c', status, actions) =
      commit s e k.preactivation k.sensing k.modes k.listening k.desired k.decided in
    (c', status, k.actions ++ actions)

-- The state after a series of ticks, each with its environment and time.
unfoldable pub run : Settings → List (Environment × ℕ) → Controller → Controller
run s [] c = c
run s ((e, now) ∷ ticks) c = run s ticks (tick s e now c).0

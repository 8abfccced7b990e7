-- ===== src/Controller/Reported.antt =====
-- The router's calls in a tick and the route that the tick reports (src/phono_console/controller.py).
use phono_console.Base.{
  ℕ, ◌≡◌, refl, sym, ap, ◌∙◌, ◌⊎◌, inl, inr, Bool, true, Option, none, some, List, [], ◌∷◌, ◌++◌,
  arith,
}
use phono_console.Policy.{Route, idle, local_phono, PhonoOutputMode}
use phono_console.Controller.{Settings, Controller, Environment, Action, apply, reconcile}
use phono_console.Controller.Sense.{sense, preactivate, Sensing, Preactivation}
use phono_console.Controller.Modes.{modes, Modes}
use phono_console.Controller.Bluetooth.{listen, Listening}
use phono_console.Controller.Distribution.{distribute, pursue, distribution_ready, Distribution}
use phono_console.Controller.Decide.{decide, leave, enter, latch, reduced}
use phono_console.Controller.Commit.{commit, switch, status_of, record_route}
use phono_console.Controller.Tick.{course, tick}

abbrev or_else : Option Route → Option Route → Option Route
or_else none o = o
or_else (some r) o = some r

-- The route of the last call of the router.
unfoldable pub last_call : List Action → Option Route
last_call [] = none
last_call (apply r ∷ later) = or_else (last_call later) (some r)
last_call (reconcile r ∷ later) = or_else (last_call later) (some r)
last_call (a ∷ later) = last_call later

or_else_assoc : (a b c : Option Route) → or_else (or_else a b) c ≡ or_else a (or_else b c)
or_else_assoc none b c = refl
or_else_assoc (some r) b c = refl

last_call-append :
    (before after : List Action)
    → last_call (before ++ after) ≡ or_else (last_call after) (last_call before)
unfolding last_call
last_call-append [] after = or_else_none (last_call after)
  where
    or_else_none : (o : Option Route) → o ≡ or_else o none
    or_else_none none = refl
    or_else_none (some r) = refl
last_call-append (apply r ∷ before) after =
    rw (last_call-append before after) (or_else_assoc (last_call after) (last_call before) (some r))
last_call-append (reconcile r ∷ before) after =
    rw (last_call-append before after) (or_else_assoc (last_call after) (last_call before) (some r))
last_call-append (a ∷ before) after = last_call-append before after

append-silent :
    (before after : List Action)
    → last_call before ≡ none
    → last_call after ≡ none
    → last_call (before ++ after) ≡ none
append-silent before after b a = ground (arith, last_call-append before after)

modes-silent :
    (s : Settings) (e : Environment) (now : ℕ) (c : Controller) (x : Sensing)
    → last_call (modes s e now c x).2 ≡ none
unfolding modes last_call
modes-silent s e now c x = ground arith

listen-silent :
    (s : Settings) (e : Environment) (now : ℕ) (c : Controller) (x : Sensing)
    → last_call (listen s e now c x).2 ≡ none
unfolding listen last_call
listen-silent s e now c x = ground arith

pursue-silent :
    (s : Settings) (e : Environment) (now : ℕ) (required : Bool) (d : Distribution) (c : Controller)
    → last_call (pursue s e now required d c).1 ≡ none
unfolding pursue last_call
pursue-silent s e now required d c = ground arith

distribute-silent :
    (s : Settings) (e : Environment) (now : ℕ) (mode : PhonoOutputMode) (x : Sensing)
    (b : Listening) (c : Controller)
    → last_call (distribute s e now mode x b c).2 ≡ none
unfolding distribute
distribute-silent s e now mode x b c = pursue-silent s e now _ _ (distribution_ready s e now c).0

leave-silent :
    (s : Settings) (e : Environment) (route : Option Route) (desired : Route)
    → last_call (leave s e route desired).1 ≡ none
unfolding leave last_call
leave-silent s e route desired = ground arith

enter-silent :
    (s : Settings) (e : Environment) (m : Modes) (d : Distribution) (desired : Route)
    (c : Controller)
    → last_call (enter s e m d desired c).2 ≡ none
unfolding enter last_call
enter-silent s e m d desired c = ground arith

decide-silent :
    (s : Settings) (e : Environment) (x : Sensing) (m : Modes) (b : Listening) (d : Distribution)
    (c : Controller)
    → last_call (decide s e x m b d c).2 ≡ none
unfolding decide
decide-silent s e x m b d c =
    let left = leave s e c.route (latch x b d c.route (reduced e m d c.route)) in
    append-silent left.1 (enter s e m d left.0 c).2
      (leave-silent s e c.route (latch x b d c.route (reduced e m d c.route)))
      (enter-silent s e m d left.0 c)

-- An early activation of the local audio has called the router for the phono.
preactivate-called :
    (s : Settings) (e : Environment) (c : Controller) (x : Sensing)
    → (preactivate s e c x).0.local_audio ≡ true
    → last_call (preactivate s e c x).1 ≡ some local_phono
unfolding preactivate last_call
preactivate-called s e c x h = ground arith

switch-called :
    (s : Settings) (e : Environment) (p : Preactivation) (desired : Route) (c : Controller)
    → s.has_reconcile ≡ true
    → (last_call (switch s e p desired c).2 ≡ some (switch s e p desired c).1)
      ⊎ ((p.local_audio ≡ true)
          × ((switch s e p desired c).1 ≡ local_phono)
          × (last_call (switch s e p desired c).2 ≡ none))
unfolding switch last_call
switch-called s e p desired c h = ground arith

switch-error :
    (s : Settings) (e : Environment) (p : Preactivation) (desired : Route) (c : Controller)
    → ((switch s e p desired c).0.last_route_error ≡ none) ⊎ ((switch s e p desired c).1 ≡ idle)
unfolding switch
switch-error s e p desired c = ground arith

record-silent :
    (mode : PhonoOutputMode) (route : Route) (c : Controller)
    → last_call (record_route mode route c).1 ≡ none
unfolding record_route last_call
record-silent mode route c = ground arith

-- A last part of the actions that calls the router says what the last call is.
append-last :
    (before after : List Action) {r : Route}
    → last_call after ≡ some r
    → last_call (before ++ after) ≡ some r
append-last before after h = ground (arith, last_call-append before after)

append-kept :
    (before after : List Action) {r : Route}
    → last_call before ≡ some r
    → last_call after ≡ none
    → last_call (before ++ after) ≡ some r
append-kept before after b a = ground (arith, last_call-append before after)

-- Nothing after the early activation calls the router, before the route is committed.
course-called :
    (s : Settings) (e : Environment) (now : ℕ) (c : Controller)
    → (course s e now c).preactivation.local_audio ≡ true
    → last_call (course s e now c).actions ≡ some local_phono
unfolding course
course-called s e now c h =
    let (c₁, x, a₁) = sense s e now c in
    let (p, a₂) = preactivate s e c₁ x in
    let (c₂, m, a₃) = modes s e now c₁ x in
    let (c₃, b, a₄) = listen s e now c₂ x in
    let (c₄, d, a₅) = distribute s e now m.output_mode x b c₃ in
    let a₆ = (decide s e x m b d c₄).2 in
    append-last a₁ (a₂ ++ (a₃ ++ (a₄ ++ (a₅ ++ a₆)))) (
      append-kept a₂ (a₃ ++ (a₄ ++ (a₅ ++ a₆))) (preactivate-called s e c₁ x h) (
        append-silent a₃ (a₄ ++ (a₅ ++ a₆)) (modes-silent s e now c₁ x) (
          append-silent a₄ (a₅ ++ a₆) (listen-silent s e now c₂ x) (
            append-silent a₅ a₆ (distribute-silent s e now m.output_mode x b c₃)
              (decide-silent s e x m b d c₄)))))

-- With a router that can reconcile, the last call of the router in a tick, whether it raises or
-- not, is for the route that the tick reports; and an error that is kept goes with a report of idle.
-- So a tick that keeps an error has called the router for idle last.
pub tick_reported :
    (s : Settings) (e : Environment) (now : ℕ) (c : Controller)
    → s.has_reconcile ≡ true
    → (last_call (tick s e now c).2 ≡ some (tick s e now c).1.route)
      × (((tick s e now c).0.last_route_error ≡ none) ⊎ ((tick s e now c).1.route ≡ idle))
unfolding tick commit status_of record_route
tick_reported s e now c h =
    let k = course s e now c in
    let (c', route, calls) = switch s e k.preactivation k.desired k.decided in
    let recorded = (record_route k.modes.output_mode route c').1 in
    let silent = record-silent k.modes.output_mode route c' in
    (
      elim (switch-called s e k.preactivation k.desired k.decided h) [
        | inl called ↦
            append-last k.actions (calls ++ recorded) (append-kept calls recorded called silent)
        | inr (early, local, none_called) ↦
            append-kept k.actions (calls ++ recorded)
              (course-called s e now c early ∙ ap some (sym local))
              (append-silent calls recorded none_called silent)
      ],
      switch-error s e k.preactivation k.desired k.decided,
    )

-- ===== src/Controller/Safety.antt =====
-- When `Controller.tick` (src/phono_console/controller.py) may put the distributed route up, and
-- what a failure leaves.
use phono_console.Controller.Commit.{status_of, record_route, switch, commit}
use phono_console.Base.{
  ℕ, ◌≡◌, refl, ◌∙◌, ◌⊎◌, inl, inr, Bool, true, false, ◌&&◌, Option, none, some, List, [], ◌∷◌,
  arith, Bool-cases,
}
use phono_console.Policy.{
  route_distribution, route_source, Route, phono, is_distributed, is_physical, is_downstairs,
  choose_route,
}
use phono_console.Policy.{OutputTarget, Source, bluetooth, PhonoOutputMode}
use phono_console.Policy.Reduce.{reduce_routing-distributed}
use phono_console.Controller.Decide.{target_of, observe}
use phono_console.Controller.{Settings, Controller, Environment, on_route}
use phono_console.Controller.Sense.{Preactivation, Sensing, sense}
use phono_console.Controller.Modes.{Modes, modes}
use phono_console.Controller.Bluetooth.{Listening, listen}
use phono_console.Controller.Distribution.{Distribution, distribute, distribution_ready, pursue}
use phono_console.Controller.Decide.{
  decide, reduced, latch, leave, enter, fall_back, was_distributed, must_prepare,
}
use phono_console.Controller.Tick.{run, tick, course}

downstairs_of_target :
    (mode : PhonoOutputMode) → target_of mode ≡ OutputTarget.downstairs → is_downstairs mode ≡ true
downstairs_of_target mode h = ground arith

physical_cases : (a : Source) → (a ≡ phono) ⊎ (a ≡ bluetooth) → is_physical a ≡ true
physical_cases a h = ground arith

reduced-distributed :
    (e : Environment) (m : Modes) (d : Distribution) (route : Option Route)
    → is_distributed (reduced e m d route) ≡ true
    → (d.available ≡ true)
      × (is_downstairs m.output_mode ≡ true)
      × (is_physical d.selected_source ≡ true)
unfolding reduced
reduced-distributed e m d route h =
    let (target, agrees) =
      (reduce_routing-distributed (target_of m.output_mode) (observe e m d) e.routing_generation
          (was_distributed route)).0
        h in
    (
      agrees.connected,
      downstairs_of_target m.output_mode target,
      physical_cases d.selected_source agrees.physical,
    )

latch-off :
    (x : Sensing) (b : Listening) (d : Distribution) (route : Option Route) (decided : Route)
    → on_route route (latch x b d route decided) ≡ false
    → latch x b d route decided ≡ decided
unfolding latch
latch-off x b d route decided h = ground arith

leave-distributed :
    (s : Settings) (e : Environment) (route : Option Route) (desired : Route)
    → is_distributed (leave s e route desired).0 ≡ true
    → (leave s e route desired).0 ≡ desired
unfolding leave
leave-distributed s e route desired h = ground arith

fall_back-local : (m : Modes) (d : Distribution) → is_distributed (fall_back m d) ≡ false
unfolding fall_back choose_route
fall_back-local m d = ground arith

enter-distributed :
    (s : Settings) (e : Environment) (m : Modes) (d : Distribution) (desired : Route)
    (c : Controller)
    → is_distributed (enter s e m d desired c).1 ≡ true
    → ((enter s e m d desired c).1 ≡ desired)
      × (must_prepare s d c.route desired ≡ true → e.prepared ≡ inl true)
unfolding enter
enter-distributed s e m d desired c h = ground (arith, fall_back-local m d)

modes-route :
    (s : Settings) (e : Environment) (now : ℕ) (c : Controller) (x : Sensing)
    → (modes s e now c x).0.route ≡ c.route
unfolding modes
modes-route s e now c x = ground arith

listen-route :
    (s : Settings) (e : Environment) (now : ℕ) (c : Controller) (x : Sensing)
    → (listen s e now c x).0.route ≡ c.route
unfolding listen
listen-route s e now c x = ground arith

pursue-route :
    (s : Settings) (e : Environment) (now : ℕ) (required : Bool) (d : Distribution) (c : Controller)
    → (pursue s e now required d c).0.route ≡ c.route
unfolding pursue
pursue-route s e now required d c = ground arith

ready-route :
    (s : Settings) (e : Environment) (now : ℕ) (c : Controller)
    → (distribution_ready s e now c).0.route ≡ c.route
unfolding distribution_ready
ready-route s e now c = ground arith

-- The route is touched by nothing before `commit`.
pub considered-route :
    (s : Settings) (e : Environment) (now : ℕ) (c : Controller)
    → (course s e now c).considered.route ≡ c.route
unfolding course sense distribute
considered-route s e now c =
    let (c₁, x, _) = sense s e now c in
    let (c₂, m, _) = modes s e now c₁ x in
    let (c₃, b, _) = listen s e now c₂ x in
    pursue-route s e now _ _ (distribution_ready s e now c₃).0
    ∙ (ready-route s e now c₃ ∙ (listen-route s e now c₂ x ∙ modes-route s e now c₁ x))

decided-route :
    (s : Settings) (e : Environment) (x : Sensing) (m : Modes) (b : Listening) (d : Distribution)
    (c : Controller)
    → (decide s e x m b d c).0.route ≡ c.route
unfolding decide
decided-route s e x m b d c = ground arith

preparation :
    (s : Settings) (e : Environment) (d : Distribution) (route : Option Route) (desired : Route)
    → is_distributed desired ≡ true
    → on_route route desired ≡ false
    → (must_prepare s d route desired ≡ true → e.prepared ≡ inl true)
    → ((s.has_prepare && d.can_start) ≡ false) ⊎ (e.prepared ≡ inl true)
preparation s e d route desired h new asked = elim (Bool-cases (s.has_prepare && d.can_start)) [
  | inl wanted ↦ inr (asked (rw (h, new, wanted) refl))
  | inr unwanted ↦ inl unwanted
]

-- Nothing but a confirmed distribution that the user asked for brings a distributed route up.
decide_entering :
    (s : Settings) (e : Environment) (x : Sensing) (m : Modes) (b : Listening) (d : Distribution)
    (c : Controller)
    → is_distributed (decide s e x m b d c).1 ≡ true
    → on_route c.route (decide s e x m b d c).1 ≡ false
    → (d.available ≡ true)
      × (is_downstairs m.output_mode ≡ true)
      × (is_physical d.selected_source ≡ true)
      × (((s.has_prepare && d.can_start) ≡ false) ⊎ (e.prepared ≡ inl true))
unfolding decide
decide_entering s e x m b d c h new =
    let decided = reduced e m d c.route in
    let latched = latch x b d c.route decided in
    let left = (leave s e c.route latched).0 in
    let (same, prepared) = enter-distributed s e m d left c h in
    let h₁ : is_distributed left ≡ true = rw same at h in
    let n₁ : on_route c.route left ≡ false = rw same at new in
    let kept : left ≡ latched = leave-distributed s e c.route latched h₁ in
    let n₂ : on_route c.route latched ≡ false = rw kept at n₁ in
    let off : latched ≡ decided = latch-off x b d c.route decided n₂ in
    let h₂ : is_distributed decided ≡ true = rw off at (rw kept at h₁) in
    let (available, downstairs, physical) = reduced-distributed e m d c.route h₂ in
    (available, downstairs, physical, preparation s e d c.route left h₁ n₁ prepared)

switch-distributed :
    (s : Settings) (e : Environment) (p : Preactivation) (desired : Route) (c : Controller)
    → is_distributed (switch s e p desired c).1 ≡ true
    → (switch s e p desired c).1 ≡ desired
unfolding switch
switch-distributed s e p desired c h = ground arith

course-available :
    (s : Settings) (e : Environment) (now : ℕ) (c : Controller)
    → (course s e now c).distribution.available
      ≡ (s.has_distribution_available && e.distribution_available)
unfolding course distribute distribution_ready
course-available s e now c = ground arith

-- A tick whose route is a distributed one that was not up before has seen the distribution
-- available, with the output mode Downstairs and a physical source selected; and either no preparation
-- could be asked for (no callback for it, or Bluetooth audio that is not ready), or the preparation
-- has returned true.
pub tick_entering :
    (s : Settings) (e : Environment) (now : ℕ) (c : Controller)
    → is_distributed (tick s e now c).1.route ≡ true
    → on_route c.route (tick s e now c).1.route ≡ false
    → (e.distribution_available ≡ true)
      × (is_downstairs (course s e now c).modes.output_mode ≡ true)
      × (is_physical (course s e now c).distribution.selected_source ≡ true)
      × (((s.has_prepare && (course s e now c).distribution.can_start) ≡ false)
          ⊎ (e.prepared ≡ inl true))
unfolding tick course commit status_of
tick_entering s e now c h new =
    let k = course s e now c in
    let same = switch-distributed s e k.preactivation k.desired k.decided h in
    let h' : is_distributed k.desired ≡ true = rw same at h in
    let on : on_route c.route k.desired ≡ false = rw same at new in
    let on' : on_route k.considered.route k.desired ≡ false = rw (considered-route s e now c) on in
    let (available, mode, physical, prepared) =
      decide_entering s e k.sensing k.modes k.listening k.distribution k.considered h' on' in
    (ground (arith, course-available s e now c, available), mode, physical, prepared)

-- The state and the status agree on the route, the source and the path.
pub tick-status :
    (s : Settings) (e : Environment) (now : ℕ) (c : Controller)
    → let (c', status, _) = tick s e now c in
      (c'.route ≡ some status.route)
      × (status.source ≡ route_source status.route)
      × (status.distribution ≡ route_distribution status.route)
unfolding tick commit record_route status_of
tick-status s e now c = (refl, refl, refl)

abbrev pub on_distributed : Option Route → Bool
on_distributed none = false
on_distributed (some r) = is_distributed r

-- Some tick of the series saw the distribution available.
abbrev pub EverAvailable : List (Environment × ℕ) → Type 0
EverAvailable [] = ⊥
EverAvailable ((e, _) ∷ ticks) = (e.distribution_available ≡ true) ⊎ EverAvailable ticks

tick-available :
    (s : Settings) (e : Environment) (now : ℕ) (c : Controller)
    → on_distributed c.route ≡ false
    → on_distributed (tick s e now c).0.route ≡ true
    → e.distribution_available ≡ true
tick-available s e now c off up =
    let (route, _, _) = tick-status s e now c in
    let up' : is_distributed (tick s e now c).1.route ≡ true = rw route at up in
    (tick_entering s e now c up' (not_on c.route (tick s e now c).1.route off up')).0
  where
    not_on :
        (old : Option Route) (r : Route)
        → on_distributed old ≡ false
        → is_distributed r ≡ true
        → on_route old r ≡ false
    not_on old r h g = ground arith

-- Over any series of ticks, a controller that was not distributed ends on a distributed route
-- only if the distribution was available in one of them.
pub run-distributed :
    (s : Settings) (ticks : List (Environment × ℕ)) (c : Controller)
    → on_distributed c.route ≡ false
    → on_distributed (run s ticks c).route ≡ true
    → EverAvailable ticks
unfolding run
run-distributed s [] c off up = cc
run-distributed s ((e, now) ∷ ticks) c off up =
    elim (Bool-cases (on_distributed (tick s e now c).0.route)) [
      | inl here ↦ inl (tick-available s e now c off here)
      | inr still ↦ inr (run-distributed s ticks (tick s e now c).0 still up)
    ]

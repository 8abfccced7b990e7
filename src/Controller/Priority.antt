-- ===== src/Controller/Priority.antt =====
-- Which source `Controller.tick` (src/phono_console/controller.py) lets be heard: the phono comes
-- first, a dead capture never plays, and an impact peak wakes an idle console only.
use phono_console.Base.{
  ℕ, ◌≡◌, refl, sym, ◌∙◌, ◌≢◌, ◌⊎◌, inl, Bool, true, false, Option, none, some, arith, is_some, ℤ,
}
use phono_console.Policy.{Route, idle, phono, reduce_routing, route_source, choose_route}
use phono_console.Policy.Reduce.{reduce_routing-source}
use phono_console.Detector.{update}
use phono_console.Controller.{Settings, Controller, Environment, is_quiet}
use phono_console.Controller.Sense.{Sensing, sense, detect, needle_drop, Preactivation}
use phono_console.Controller.Modes.{Modes}
use phono_console.Controller.Bluetooth.{Listening}
use phono_console.Controller.Distribution.{Distribution, distribute, select_source}
use phono_console.Controller.Decide.{
  decide, reduced, latch, leave, enter, fall_back, observe, target_of, was_distributed,
}
use phono_console.Controller.Commit.{commit, switch, status_of, record_route}
use phono_console.Controller.Tick.{course, tick}

reduced-phono :
    (e : Environment) (m : Modes) (d : Distribution) (route : Option Route)
    → d.selected_source ≡ phono
    → route_source (reduced e m d route) ≡ phono
unfolding reduced
reduced-phono e m d route h =
    reduce_routing-source (target_of m.output_mode) (observe e m d) e.routing_generation
      (was_distributed route) (inl h)
    ∙ h

reduced_other :
    (e : Environment) (m : Modes) (d : Distribution) (route : Option Route)
    → d.selected_source ≢ phono
    → route_source (reduced e m d route) ≢ phono
unfolding reduced reduce_routing route_source observe
reduced_other e m d route h p = ground arith

latch-phono :
    (x : Sensing) (b : Listening) (d : Distribution) (route : Option Route) (decided : Route)
    → x.phono_active ≡ true
    → route_source decided ≡ phono
    → route_source (latch x b d route decided) ≡ phono
unfolding latch route_source
latch-phono x b d route decided active h = ground arith

latch_other :
    (x : Sensing) (b : Listening) (d : Distribution) (route : Option Route) (decided : Route)
    → d.selected_source ≢ phono
    → route_source decided ≢ phono
    → route_source (latch x b d route decided) ≢ phono
unfolding latch route_source
latch_other x b d route decided other h p = ground arith

leave_phono :
    (s : Settings) (e : Environment) (route : Option Route) (desired : Route)
    → (route_source desired ≡ phono)
    → route_source (leave s e route desired).0 ≡ phono
unfolding leave route_source
leave_phono s e route desired h = ground arith

leave_other :
    (s : Settings) (e : Environment) (route : Option Route) (desired : Route)
    → route_source desired ≢ phono
    → route_source (leave s e route desired).0 ≢ phono
unfolding leave route_source
leave_other s e route desired h p = ground arith

enter_phono :
    (s : Settings) (e : Environment) (m : Modes) (d : Distribution) (desired : Route)
    (c : Controller)
    → d.selected_source ≡ phono
    → route_source desired ≡ phono
    → route_source (enter s e m d desired c).1 ≡ phono
unfolding enter route_source fall_back choose_route
enter_phono s e m d desired c h p = ground arith

enter_other :
    (s : Settings) (e : Environment) (m : Modes) (d : Distribution) (desired : Route)
    (c : Controller)
    → d.selected_source ≢ phono
    → route_source desired ≢ phono
    → route_source (enter s e m d desired c).1 ≢ phono
unfolding enter route_source fall_back choose_route
enter_other s e m d desired c h p q = ground arith

course-selected :
    (s : Settings) (e : Environment) (now : ℕ) (c : Controller)
    → let k = course s e now c in
      k.distribution.selected_source
      ≡ select_source k.sensing.phono_signal_present k.listening.active k.sensing.phono_active
unfolding course distribute
course-selected s e now c = refl

select_source-present :
    (b a : Bool) (signal : Bool) → signal ≡ true → select_source signal b a ≡ phono
unfolding select_source
select_source-present b a signal h = ground arith

select_source-absent :
    (signal b a : Bool) → signal ≡ false → a ≡ false → select_source signal b a ≢ phono
unfolding select_source
select_source-absent signal b a h g p = ground arith

switch_phono :
    (s : Settings) (e : Environment) (p : Preactivation) (desired : Route) (c : Controller)
    → route_source desired ≡ phono
    → (route_source (switch s e p desired c).1 ≡ phono)
      ⊎ (((switch s e p desired c).1 ≡ idle)
          × (is_some (switch s e p desired c).0.last_route_error ≡ true))
unfolding switch
switch_phono s e p desired c h = ground arith

switch_other :
    (s : Settings) (e : Environment) (p : Preactivation) (desired : Route) (c : Controller)
    → route_source desired ≢ phono
    → route_source (switch s e p desired c).1 ≢ phono
unfolding switch route_source
switch_other s e p desired c h q = ground arith

-- Where a tick senses the phono active on a present signal, it plays the phono, whatever else plays;
-- the only other outcome is silence with an error, because the chosen route could not be applied.
pub tick_phono_first :
    (s : Settings) (e : Environment) (now : ℕ) (c : Controller)
    → (course s e now c).sensing.phono_active ≡ true
    → (course s e now c).sensing.phono_signal_present ≡ true
    → ((tick s e now c).1.source ≡ phono)
      ⊎ (((tick s e now c).1.route ≡ idle) × (is_some (tick s e now c).0.last_route_error ≡ true))
unfolding tick course commit status_of decide record_route
tick_phono_first s e now c active present =
    let k = course s e now c in
    let selected : k.distribution.selected_source ≡ phono =
      course-selected s e now c
      ∙ select_source-present k.listening.active k.sensing.phono_active
          k.sensing.phono_signal_present present in
    let decided = reduced-phono e k.modes k.distribution k.considered.route selected in
    let latched =
      latch-phono k.sensing k.listening k.distribution k.considered.route _ active decided in
    let left = leave_phono s e k.considered.route _ latched in
    let desired = enter_phono s e k.modes k.distribution _ k.considered selected left in
    switch_phono s e k.preactivation k.desired k.decided desired

sense_dead :
    (s : Settings) (e : Environment) (now : ℕ) (c : Controller)
    → e.level ≡ none
    → let x = (sense s e now c).1 in (x.phono_active ≡ false) × (x.phono_signal_present ≡ false)
unfolding sense
sense_dead s e now c h = ground arith

-- A tick whose capture fails does not play the phono, and its status calls the phono inactive.
pub tick_dead_capture :
    (s : Settings) (e : Environment) (now : ℕ) (c : Controller)
    → e.level ≡ none
    → ((tick s e now c).1.source ≢ phono) × ((tick s e now c).1.phono_active ≡ false)
unfolding tick course commit status_of decide record_route
tick_dead_capture s e now c dead =
    let k = course s e now c in
    let (inactive, absent) = sense_dead s e now c dead in
    let selected : k.distribution.selected_source ≢ phono = λ h.
      select_source-absent k.sensing.phono_signal_present k.listening.active k.sensing.phono_active
        absent inactive (sym (course-selected s e now c) ∙ h) in
    let decided = reduced_other e k.modes k.distribution k.considered.route selected in
    let latched =
      latch_other k.sensing k.listening k.distribution k.considered.route _ selected decided in
    let left = leave_other s e k.considered.route _ latched in
    let desired = enter_other s e k.modes k.distribution _ k.considered selected left in
    (switch_other s e k.preactivation k.desired k.decided desired, inactive)

-- While a route is up and the capture works, no impact peak counts as a needle drop: the tick only
-- feeds the level to the detector.
pub sense_busy :
    (s : Settings) (e : Environment) (now : ℕ) (c : Controller) {level : ℤ}
    → is_quiet c.route ≡ false
    → e.level ≡ some level
    → ((sense s e now c).1.needle_drop_detected ≡ false)
      × ((sense s e now c).0.detector ≡ update c.detector level now)
unfolding sense detect needle_drop
sense_busy s e now c busy h = ground arith

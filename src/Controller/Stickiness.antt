-- ===== src/Controller/Stickiness.antt =====
-- Timers of `Controller.tick` (src/phono_console/controller.py): the expiry of the sticky
-- Downstairs mode, and the pace at which the distribution is started.
use phono_console.Base.{
  ℕ, ◌+◌, ◌≤◌, ◌<◌, String, ◌≡◌, refl, true, false, none, some, List, [], ◌∷◌, ◌++◌, arith, All, ℤ,
  pos, ◌-ℤ◌, -ℤ_parts,
}
use phono_console.Policy.{Source, local, downstairs, is_source}
use phono_console.Controller.{Settings, Controller, Environment, Action, expire_mode, when, elapsed}
use phono_console.Controller.Modes.{stick}
use phono_console.Controller.Distribution.{Distribution, pursue, should_prepare}

-- A series of ticks without phono activity in the Downstairs mode.
pub stick_all : Settings → List ℕ → Controller → Controller
stick_all s [] c = c
stick_all s (now ∷ times) c = stick_all s times (stick s now false downstairs c).0

stick_waits :
    (s : Settings) (now since : ℕ) (c : Controller)
    → c.phono_mode_inactive_since ≡ some since
    → now < since + s.phono_mode_sticky
    → stick s now false downstairs c ≡ (c, downstairs, [])
unfolding stick
stick_waits s now since c h early = ground arith

stick_all-waits :
    (s : Settings) (since : ℕ) (times : List ℕ) (c : Controller)
    → c.phono_mode_inactive_since ≡ some since
    → All (λ now. now < since + s.phono_mode_sticky) times
    → stick_all s times c ≡ c
unfolding stick_all
stick_all-waits s since [] c h early = refl
stick_all-waits s since (now ∷ times) c h early =
    rw (stick_waits s now since c h early.0) (stick_all-waits s since times c h early.1)

stick_begins :
    (s : Settings) (first : ℕ) (c : Controller)
    → c.phono_mode_inactive_since ≡ none
    → stick s first false downstairs c
      ≡ (record c { phono_mode_inactive_since = some first }, downstairs, [])
unfolding stick
stick_begins s first c h = ground arith

stick_ends :
    (s : Settings) (first now : ℕ) (c : Controller)
    → first + s.phono_mode_sticky ≤ now
    → stick s now false downstairs (record c { phono_mode_inactive_since = some first }) ≡ (
      record c { phono_mode_inactive_since = none; phono_mode_last_refresh = none },
      local,
      when s.has_expire (expire_mode ∷ []),
    )
unfolding stick
stick_ends s first now c h = ground arith

-- Where Downstairs is the mode, no phono is active and no inactivity is being timed, a tick keeps
-- Downstairs and starts the timer; ticks within the sticky time from it change nothing, and a tick
-- from its end on turns the mode to local and forgets both timers.
pub stick_expires :
    (s : Settings) (first now : ℕ) (times : List ℕ) (c : Controller)
    → c.phono_mode_inactive_since ≡ none
    → All (λ t. t < first + s.phono_mode_sticky) times
    → first + s.phono_mode_sticky ≤ now
    → let begun = (stick s first false downstairs c).0 in
      let waited = stick_all s times begun in
      (waited ≡ begun)
      × ((stick s first false downstairs c).1 ≡ downstairs)
      × (stick s now false downstairs waited ≡ (
        record c { phono_mode_inactive_since = none; phono_mode_last_refresh = none },
        local,
        when s.has_expire (expire_mode ∷ []),
      ))
stick_expires s first now times c fresh early late =
    let begun : Controller = record c { phono_mode_inactive_since = some first } in
    let kept = stick_all-waits s first times begun refl early in
    rw (stick_begins s first c fresh, kept) (refl, refl, stick_ends s first now c late)

-- A record that plays keeps the mode, whatever had been counted.
pub stick_active :
    (s : Settings) (now : ℕ) (c : Controller)
    → ((stick s now true downstairs c).1 ≡ downstairs)
      × ((stick s now true downstairs c).0.phono_mode_inactive_since ≡ none)
unfolding stick
stick_active s now c = ground arith

-- The situation in which the distribution is to be started.
pub record Wanted (d : Distribution) : Type 0 where
  pub unavailable : d.available ≡ false
  pub capable : d.capable ≡ true
  pub can_start : d.can_start ≡ true

pub pursue_all :
    Settings → Environment → List ℕ → Distribution → Controller → Controller × List Action
pursue_all s e [] d c = (c, [])
pursue_all s e (now ∷ times) d c =
    let (c', actions) = pursue s e now true d c in
    let (c'', more) = pursue_all s e times d c' in (c'', actions ++ more)

is_source_refl : (a : Source) → is_source a a ≡ true
is_source_refl a = ground arith

not_elapsed : (now since delay : ℕ) → now < since + delay → elapsed now (pos since) delay ≡ false
not_elapsed now since delay h = ground (arith, -ℤ_parts (pos now) (pos since))

elapsed_dated_back :
    (now later delay : ℕ) → now ≤ later → elapsed later (pos now -ℤ pos delay) delay ≡ true
elapsed_dated_back now later delay h =
    ground (arith, -ℤ_parts (pos now) (pos delay), -ℤ_parts (pos later) (pos now -ℤ pos delay))

should_prepare_pending :
    (s : Settings) (now since : ℕ) (source : Source) (c : Controller)
    → c.distribution_pending_source ≡ some source
    → c.distribution_pending_since ≡ some (pos since)
    → now < since + s.distribution_start_timeout
    → should_prepare s now source c ≡ false
unfolding should_prepare
should_prepare_pending s now since source c p q early =
    rw (p, q, is_source_refl source, not_elapsed now since s.distribution_start_timeout early)

pursue_waits :
    (s : Settings) (e : Environment) (now since : ℕ) (d : Distribution) (c : Controller)
    → Wanted d
    → c.distribution_pending_source ≡ some d.selected_source
    → c.distribution_pending_since ≡ some (pos since)
    → now < since + s.distribution_start_timeout
    → pursue s e now true d c ≡ (c, [])
unfolding pursue
pursue_waits s e now since d c w p q early = rw (
  w.unavailable,
  w.capable,
  w.can_start,
  should_prepare_pending s now since d.selected_source c p q early,
)

-- While a start is pending for the selected source, and Downstairs is wanted, unavailable and can be
-- started, no tick before the start timeout changes anything or asks again.
pub pursue_all-waits :
    (s : Settings) (e : Environment) (since : ℕ) (times : List ℕ) (d : Distribution)
    (c : Controller)
    → Wanted d
    → c.distribution_pending_source ≡ some d.selected_source
    → c.distribution_pending_since ≡ some (pos since)
    → All (λ now. now < since + s.distribution_start_timeout) times
    → pursue_all s e times d c ≡ (c, [])
unfolding pursue_all
pursue_all-waits s e since [] d c w p q early = refl
pursue_all-waits s e since (now ∷ times) d c w p q early = rw (
  pursue_waits s e now since d c w p q early.0,
  pursue_all-waits s e since times d c w p q early.1,
)

should_prepare_overdue :
    (s : Settings) (now : ℕ) (a : Source) (c : Controller) {since : ℤ}
    → c.distribution_pending_since ≡ some since
    → elapsed now since s.distribution_start_timeout ≡ true
    → should_prepare s now a c ≡ true
unfolding should_prepare
should_prepare_overdue s now a c q over = rw (q, over) (ground arith)

pursue_failed :
    (s : Settings) (e : Environment) (now : ℕ) (d : Distribution) (c : Controller)
    {message : String}
    → Wanted d
    → s.has_prepare ≡ true
    → e.start_error ≡ some message
    → should_prepare s now d.selected_source c ≡ true
    → (pursue s e now true d c).0.distribution_pending_since
      ≡ some (pos now -ℤ pos s.distribution_start_timeout)
unfolding pursue
pursue_failed s e now d c w has err due = ground (arith, w.unavailable, w.capable, w.can_start)

-- Where Downstairs is wanted and can be started by a callback and a start is due, a start that raises
-- leaves a state in which a start is due at every tick from then on.
pub pursue_retries :
    (s : Settings) (e : Environment) (now later : ℕ) (d : Distribution) (c : Controller)
    {message : String}
    → Wanted d
    → s.has_prepare ≡ true
    → e.start_error ≡ some message
    → should_prepare s now d.selected_source c ≡ true
    → now ≤ later
    → should_prepare s later d.selected_source (pursue s e now true d c).0 ≡ true
pursue_retries s e now later d c w has err due order =
    should_prepare_overdue s later d.selected_source (pursue s e now true d c).0
      (pursue_failed s e now d c w has err due)
      (elapsed_dated_back now later s.distribution_start_timeout order)

-- ===== src/Policy/Reduce.antt =====
-- What `reduce_routing` (src/phono_console/policy.py) decides, on every branch.
use phono_console.Base.{ℕ, Bool, true, false, some, ◌≡◌, ◌≢◌, ◌↔◌, ◌⊎◌, arith}
use phono_console.Policy.{
  OutputTarget, console, downstairs, phono, bluetooth, no_source, RoutingObservation, RoutingPhase,
  start, stop, distribution_confirmed, is_distributed, reduce_routing, route_source, unavailable,
}

-- Every control-plane signal agrees on one physical source and on the current session.
pub record Agrees (o : RoutingObservation) (generation : ℕ) : Type 0 where
  pub physical : (o.active_source ≡ phono) ⊎ (o.active_source ≡ bluetooth)
  pub selected : o.selected_source ≡ o.active_source
  pub source_connected : o.sendspin_connected ≡ true
  pub requested : o.sendspin_stream_requested ≡ true
  pub streaming : o.sendspin_streaming ≡ true
  pub healthy : o.sendspin_stream_healthy ≡ true
  pub connected : o.ma_connected ≡ true
  pub console_playing : o.ma_console_playing ≡ true
  pub target_playing : o.ma_target_playing ≡ true
  pub session : o.session_generation ≡ some generation

pub distribution_confirmed-Agrees :
    (o : RoutingObservation) (g : ℕ) → distribution_confirmed o g ≡ true → Agrees o g
unfolding distribution_confirmed
distribution_confirmed-Agrees o g h = ground arith

pub distribution_confirmed_of_Agrees :
    (o : RoutingObservation) (g : ℕ) → Agrees o g → distribution_confirmed o g ≡ true
unfolding distribution_confirmed
distribution_confirmed_of_Agrees o g h = ground arith

-- Local source separation: `reduce_routing` takes a distributed route exactly when the user asked
-- for Downstairs and every control-plane signal agrees on one physical source and on the current
-- session.
pub reduce_routing-distributed :
    (target : OutputTarget) (o : RoutingObservation) (g : ℕ) (session : Bool)
    → (is_distributed (reduce_routing target o g session).route ≡ true)
      ↔ ((target ≡ downstairs) × Agrees o g)
unfolding reduce_routing
reduce_routing-distributed console o g session = ((λ h. ground arith), (λ h. cc))
reduce_routing-distributed downstairs o g session = (
  (λ h. ground (arith, distribution_confirmed-Agrees o g)),
  (λ h. ground (arith, distribution_confirmed_of_Agrees o g h.1, h.1.physical)),
)

-- A physical source is the one that is heard, whatever the target and the signals.
pub reduce_routing-source :
    (target : OutputTarget) (o : RoutingObservation) (g : ℕ) (session : Bool)
    → (o.active_source ≡ phono) ⊎ (o.active_source ≡ bluetooth)
    → route_source (reduce_routing target o g session).route ≡ o.active_source
unfolding reduce_routing route_source
reduce_routing-source target o g session h = ground arith

-- `reduce_routing` asks for a start exactly when the user wants Downstairs, a source is active,
-- the distribution is not confirmed and it could be.
pub reduce_routing-start :
    (target : OutputTarget) (o : RoutingObservation) (g : ℕ) (session : Bool)
    → ((reduce_routing target o g session).command ≡ start) ↔ (
        (target ≡ downstairs)
        × (o.active_source ≢ no_source)
        × (distribution_confirmed o g ≡ false)
        × (o.distribution_capable ≡ true))
unfolding reduce_routing
reduce_routing-start target o g session = ((λ h. ground arith), (λ h. ground arith))

-- `reduce_routing` asks for a stop exactly when a session is active and either no source is, or the
-- target is the console.
pub reduce_routing-stop :
    (target : OutputTarget) (o : RoutingObservation) (g : ℕ) (session : Bool)
    → ((reduce_routing target o g session).command ≡ stop)
      ↔ ((session ≡ true) × ((o.active_source ≡ no_source) ⊎ (target ≡ console)))
unfolding reduce_routing
reduce_routing-stop target o g session = ((λ h. ground arith), (λ h. ground arith))

pub reduce_routing-degraded :
    (target : OutputTarget) (o : RoutingObservation) (g : ℕ) (session : Bool)
    → (reduce_routing target o g session).phase ≡ RoutingPhase.degraded
    → ((reduce_routing target o g session).error ≡ some unavailable)
      × (is_distributed (reduce_routing target o g session).route ≡ false)
      × (target ≡ downstairs)
      × (distribution_confirmed o g ≡ false)
      × (o.distribution_capable ≡ false)
unfolding reduce_routing
reduce_routing-degraded target o g session h = ground arith

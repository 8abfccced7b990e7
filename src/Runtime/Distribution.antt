-- ===== src/Runtime/Distribution.antt =====
-- When the callbacks of src/phono_console/runtime.py call the distribution available, and what that
-- means for the routes of the controller.
use phono_console.Base.{
  ℕ, ◌≡◌, refl, sym, ◌∙◌, ◌≢◌, ◌↔◌, ◌⊎◌, inl, inr, Bool, true, false, ◌&&◌, ◌||◌, Option, some,
  arith, Bool-cases,
}
use phono_console.Policy.{Source, phono, bluetooth, is_source, is_distributed}
use phono_console.Controller.{Settings, Controller, Environment, on_route}
use phono_console.Controller.Tick.{tick}
use phono_console.Controller.Safety.{tick_entering}
use phono_console.State.{StateStore, whole_house_requested}
use phono_console.Runtime.{
  streams, Signals, active_source, on_distributed_phono, spells, is_current, stop_grace,
  distribution_available, Preparing, prepare_distribution, distribution_needs_start,
}

-- What the user asked for, and the session that serves it.
pub record Authorised {D : Type 0} (x : Signals) (s : StateStore D) : Type 0 where
  pub wanted : whole_house_requested s ≡ true
  pub publisher : x.has_publisher ≡ true
  pub session : s.routing_session_generation ≡ some s.routing_generation

-- Every signal of a running stream of the active source.
pub record Streams {D : Type 0} (x : Signals) (s : StateStore D) : Type 0 where
  pub connected : x.connected ≡ true
  pub requested : x.stream_requested ≡ true
  pub streaming : x.streaming ≡ true
  pub selected : x.selected_source ≡ some (active_source s.status)
  pub healthy : x.stream_healthy ≡ true
  pub ma_connected : x.ma_connected ≡ true
  pub console_playing : x.console_playing ≡ true
  pub target_playing : x.target_playing ≡ true
  pub owner : s.routing_session_source ≡ active_source s.status

-- The phono stops, and its distributed route is kept meanwhile.
pub record Stopping {D : Type 0} (x : Signals) (s : StateStore D) : Type 0 where
  pub pending : x.phono_stop_pending ≡ true
  pub on_route : on_distributed_phono s.status ≡ true

spells_iff : (o : Option Source) (a : Source) → (spells o a ≡ true) ↔ (o ≡ some a)
spells_iff o a = ((λ h. ground arith), λ h. ground arith)

is_source_iff : (a b : Source) → (is_source a b ≡ true) ↔ (a ≡ b)
is_source_iff a b = ((λ h. ground arith), λ h. ground arith)

is_current_iff : (o : Option ℕ) (g : ℕ) → (is_current o g ≡ true) ↔ (o ≡ some g)
is_current_iff o g = ((λ h. ground arith), λ h. ground arith)

and_true : (a b : Bool) → (a && b) ≡ true → (a ≡ true) × (b ≡ true)
and_true a b h = ground arith

stop_grace_iff :
    {D : Type 0} (x : Signals) (s : StateStore D)
    → (stop_grace x s ≡ true) ↔ (Authorised x s × Stopping x s)
unfolding stop_grace
stop_grace_iff x s = (
  (λ h.
      let (wanted, r) = and_true _ _ h in
      let (publisher, r') = and_true _ _ r in
      let (pending, r'') = and_true _ _ r' in
      let (route, current) = and_true _ _ r'' in
      (
        record { wanted = wanted; publisher = publisher; session = (is_current_iff _ _).0 current },
        record { pending = pending; on_route = route },
      )),
  (λ h.
      rw (h.0.wanted, h.0.publisher, h.1.pending, h.1.on_route)
        ((is_current_iff _ _).1 h.0.session)),
)

streams_iff :
    {D : Type 0} (x : Signals) (s : StateStore D)
    → (streams x s ≡ true) ↔ (Authorised x s × Streams x s)
unfolding streams
streams_iff x s = (
  (λ h.
      let (wanted, r₁) = and_true _ _ h in
      let (publisher, r₂) = and_true _ _ r₁ in
      let (connected, r₃) = and_true _ _ r₂ in
      let (requested, r₄) = and_true _ _ r₃ in
      let (streaming, r₅) = and_true _ _ r₄ in
      let (selected, r₆) = and_true _ _ r₅ in
      let (healthy, r₇) = and_true _ _ r₆ in
      let (ma, r₈) = and_true _ _ r₇ in
      let (playing, r₉) = and_true _ _ r₈ in
      let (target, r₁₀) = and_true _ _ r₉ in
      let (current, owner) = and_true _ _ r₁₀ in
      (
        record { wanted = wanted; publisher = publisher; session = (is_current_iff _ _).0 current },
        record {
          connected = connected;
          requested = requested;
          streaming = streaming;
          selected = (spells_iff _ _).0 selected;
          healthy = healthy;
          ma_connected = ma;
          console_playing = playing;
          target_playing = target;
          owner = (is_source_iff _ _).0 owner;
        },
      )),
  (λ h.
      rw
        (
          h.0.wanted,
          h.0.publisher,
          h.1.connected,
          h.1.requested,
          h.1.streaming,
          (spells_iff _ _).1 h.1.selected,
          h.1.healthy,
          h.1.ma_connected,
          h.1.console_playing,
          h.1.target_playing,
          (is_current_iff _ _).1 h.0.session,
        )
        ((is_source_iff _ _).1 h.1.owner)),
)

-- The distribution is available exactly if the user wants Downstairs, a publisher runs and the
-- session is of the present generation, and either the phono is being stopped on its distributed
-- route or every signal says that the active source streams.
pub distribution_available_iff :
    {D : Type 0} (x : Signals) (s : StateStore D)
    → (distribution_available x s ≡ true) ↔ (Authorised x s × (Stopping x s ⊎ Streams x s))
unfolding distribution_available
distribution_available_iff x s = (
  (λ h. elim (Bool-cases (stop_grace x s)) [
    | inl grace ↦ let (a, stopping) = (stop_grace_iff x s).0 grace in (a, inl stopping)
    | inr no_grace ↦ let (a, running) = (streams_iff x s).0 (rw no_grace at h) in (a, inr running)
  ]),
  (λ h. back h.0 h.1),
)
  where
    back : Authorised x s → Stopping x s ⊎ Streams x s → (stop_grace x s || streams x s) ≡ true
    back a (inl stopping) = rw ((stop_grace_iff x s).1 (a, stopping)) refl
    back a (inr running) = ground (arith, (streams_iff x s).1 (a, running))

-- With the daemon's callback, a tick whose route is a distributed one that was not up before finds
-- the user wanting Downstairs, a publisher running, and the session of the present generation.
pub tick_entering-Authorised :
    {D : Type 0} (settings : Settings) (e : Environment) (now : ℕ) (c : Controller) (x : Signals)
    (s : StateStore D)
    → e.distribution_available ≡ distribution_available x s
    → is_distributed (tick settings e now c).1.route ≡ true
    → on_route c.route (tick settings e now c).1.route ≡ false
    → Authorised x s
tick_entering-Authorised settings e now c x s callback up new =
    ((distribution_available_iff x s).0
      (sym callback ∙ (tick_entering settings e now c up new).0)).0

-- The preparation succeeds exactly if there is a client, the source can be captured now, Music
-- Assistant was started where it had to be, and a stream is requested in the end.
pub prepare_distribution_iff :
    (x : Signals) (p : Preparing) (wanted : Source)
    → (prepare_distribution x p wanted ≡ true) ↔ (
        (x.has_publisher ≡ true)
        × (x.has_client ≡ true)
        × ((wanted ≢ bluetooth) ⊎ (p.bluetooth_live ≡ true))
        × ((wanted ≢ phono) ⊎ (x.phono_stop_pending ≡ false))
        × (((x.stream_requested ≡ true) × (x.console_playing ≡ true)) ⊎ (p.started ≡ true))
        × (p.requested_after ≡ true))
unfolding prepare_distribution distribution_needs_start
prepare_distribution_iff x p wanted = ((λ h. ground arith), (λ h. ground arith))

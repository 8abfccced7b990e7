-- ===== src/Api/Output/Choices.antt =====
-- What a request to the output leaves (src/phono_console/api.py with src/phono_console/runtime.py).
use phono_console.Base.{
  ℕ, String, ◌≡◌, refl, sym, ◌∙◌, subst, ◌≢◌, inl, inr, Bool, true, false, not, ◌&&◌, none, some,
  List, [], ◌∷◌, arith, ◌==◌, if◌then◌else◌, Bool-cases, Option-cases,
}
use phono_console.Runtime.{active_source}
use phono_console.Policy.{is_source, OutputTarget, PhonoOutputMode, RoutingPhase, Source}
use phono_console.State.{StateStore, set_output_target, set_routing_state}
use phono_console.Publisher.{Publisher}
use phono_console.Publisher.Commands.{select_source}
use phono_console.Runtime.Output.{
  carry_out, enable_all, House, Transition, Action, Result, target_persisted, same_target,
  output_mode_action, go_downstairs, start_session, played,
}
use phono_console.Api.{Response, ok, conflict, unavailable}
use phono_console.Api.Output.{answer, locked, put_store, Request, set_canonical_output, roll_back}

abbrev generation_of : {D : Type 0} → Result D → ℕ
generation_of r = r.0.store.routing_generation

played-generation :
    {D : Type 0} (missing : String) (generation : ℕ) (wanted : Source) (x : Transition D)
    (h : House D)
    → (x.meanwhile h.store).routing_generation ≡ h.store.routing_generation
    → (played missing generation wanted x h).0.store.routing_generation ≡ h.store.routing_generation
unfolding played set_routing_state
played-generation missing generation wanted x h m = ground (arith, m)

start_session-generation :
    {D : Type 0} (missing : String) (generation : ℕ) (wanted : Source) (x : Transition D)
    (p : Publisher) (h : House D)
    → ((s : StateStore D) → (x.meanwhile s).routing_generation ≡ s.routing_generation)
    → (start_session missing generation wanted x p h).0.store.routing_generation
      ≡ h.store.routing_generation
unfolding start_session set_routing_state
start_session-generation missing generation wanted x p h m =
    elim (Option-cases (select_source wanted x.capture p)) [
      | inl e ↦ rw (start_session, e) refl
      | inr ((p', effects), e) ↦
          rw (start_session, e)
            (played-generation missing generation wanted x
              (record {
                store =
                    set_routing_state RoutingPhase.starting_distribution (some generation) wanted
                      none h.store;
                publisher = some p';
              })
              (m (
                set_routing_state RoutingPhase.starting_distribution (some generation) wanted none
                  h.store)))
    ]

go_downstairs-generation :
    {D : Type 0} (missing : String) (x : Transition D) (p : Publisher) (h : House D)
    → ((s : StateStore D) → (x.meanwhile s).routing_generation ≡ s.routing_generation)
    → (go_downstairs missing x p h).0.store.routing_generation ≡ h.store.routing_generation
unfolding go_downstairs set_routing_state
go_downstairs-generation missing x p h m =
    let wanted = active_source h.store.status in
    elim (Bool-cases (not x.has_client_id)) [
      | inl e ↦ rw (go_downstairs, e) refl
      | inr e ↦ elim (Bool-cases (is_source wanted Source.no_source)) [
        | inl f ↦ rw (go_downstairs, e, f) refl
        | inr f ↦ elim (Bool-cases (is_source wanted Source.bluetooth && not x.bluetooth_live)) [
          | inl g ↦ rw (go_downstairs, e, f, g) refl
          | inr g ↦
              rw (go_downstairs, e, f, g)
                (start_session-generation missing h.store.routing_generation wanted x
                  (enable_all x.sender true p)
                  (record h { publisher = some (enable_all x.sender true p) }) m)
        ]
      ]
    ]

carry_out-generation :
    {D : Type 0} (missing : String) (x : Transition D) (h : House D)
    → ((s : StateStore D) → (x.meanwhile s).routing_generation ≡ s.routing_generation)
    → generation_of (carry_out missing OutputTarget.downstairs x h) ≡ h.store.routing_generation
unfolding carry_out set_routing_state
carry_out-generation missing x h m = elim (Option-cases h.publisher) [
  | inl e ↦ rw (carry_out, e) refl
  | inr (p, e) ↦ rw (carry_out, e) (go_downstairs-generation missing x p h m)
]

output_mode_action-generation :
    {D : Type 0} (missing : String) (x : Transition D) (h : House D)
    → ((s : StateStore D) → (x.meanwhile s).routing_generation ≡ s.routing_generation)
    → generation_of (output_mode_action missing PhonoOutputMode.downstairs x h)
      ≡ h.store.routing_generation
unfolding output_mode_action
output_mode_action-generation missing x h m =
    elim (Bool-cases (not (same_target h.store.output_target OutputTarget.downstairs))) [
      | inl e ↦ rw (output_mode_action, e) refl
      | inr e ↦ rw (output_mode_action, e) (carry_out-generation missing x h m)
    ]

-- The choice of downstairs was written to the file.
unfoldable pub persists : List Action → Bool
persists (target_persisted OutputTarget.downstairs ∷ actions) = true
persists _ = false

raised-persists :
    {D : Type 0} (missing : String) (x : Transition D) (h : House D)
    → (output_mode_action missing PhonoOutputMode.downstairs x h).2 ≡ true
    → persists (output_mode_action missing PhonoOutputMode.downstairs x h).1 ≡ true
unfolding output_mode_action persists
raised-persists missing x h r = ground arith

answer-failed :
    {D : Type 0} (q : Request D) (previous : OutputTarget) (generation : ℕ) (r : Result D)
    → generation_of r ≡ generation
    → (answer q previous OutputTarget.downstairs generation r).2 ≡ unavailable
    → (answer q previous OutputTarget.downstairs generation r).0.store.output_target ≡ previous
      × r.2 ≡ true
      × (answer q previous OutputTarget.downstairs generation r).1 ≡ r.1
unfolding answer roll_back set_output_target
answer-failed q previous generation r g f = (ground (arith, g), ground arith, ground arith)

-- One branch does not fail.
if_failed :
    {D : Type 0} (P : House D × List Action × Response → Type 0) (b : Bool)
    (u v : House D × List Action × Response)
    → u.2 ≢ unavailable
    → (b ≡ false → v.2 ≡ unavailable → P v)
    → (if b then u else v).2 ≡ unavailable
    → P (if b then u else v)
if_failed P true u v n k f = absurd (n f)
if_failed P false u v n k f = k refl f

-- What is left of a failed choice of downstairs.
abbrev Failed : {D : Type 0} → OutputTarget → House D × List Action × Response → Type 0
Failed previous t = (t.0.store.output_target ≡ previous) × (persists t.1 ≡ true)

locked-failed :
    {D : Type 0} (missing : String) (q : Request D) (previous : OutputTarget) (generation : ℕ)
    (x : Transition D) (h : House D)
    → ((s : StateStore D) → (x.meanwhile s).routing_generation ≡ s.routing_generation)
    → (locked missing q previous PhonoOutputMode.downstairs generation x h).2 ≡ unavailable
    → (locked missing q previous PhonoOutputMode.downstairs generation x h).0.store.output_target
        ≡ previous
      × persists (locked missing q previous PhonoOutputMode.downstairs generation x h).1 ≡ true
unfolding locked
locked-failed missing q previous generation x h m f =
    let r = output_mode_action missing PhonoOutputMode.downstairs x h in
    if_failed (Failed previous) (not (generation == h.store.routing_generation)) (h, [], ok)
      (answer q previous OutputTarget.downstairs generation r) (λ e. ground arith)
      (λ same failed.
        let here = output_mode_action-generation missing x h m in
        let a = answer-failed q previous generation r (here ∙ ground arith) failed in
        (
          a.0,
          subst (λ actions. persists actions ≡ true) (sym a.2) (raised-persists missing x h a.1),
        ))
      f

-- A request for downstairs that is answered as failed, and during whose play request no newer choice
-- is made, puts the previous target back in the store, but has written downstairs to the file.
pub failed_choice :
    {D : Type 0} (missing : String) (q : Request D) (x : Transition D) (h : House D)
    → ((s : StateStore D) → (x.meanwhile s).routing_generation ≡ s.routing_generation)
    → (set_canonical_output missing q PhonoOutputMode.downstairs x h).2 ≡ unavailable
    → (set_canonical_output missing q PhonoOutputMode.downstairs x h).0.store.output_target
        ≡ h.store.output_target
      × persists (set_canonical_output missing q PhonoOutputMode.downstairs x h).1 ≡ true
unfolding set_canonical_output
failed_choice missing q x h m f =
    let (s, generation) = set_output_target OutputTarget.downstairs true h.store in
    if_failed (Failed h.store.output_target) (not q.available) (h, [], conflict)
      (locked missing q h.store.output_target PhonoOutputMode.downstairs generation x
        (q.waiting (put_store s h)))
      (λ e. ground arith)
      (λ b.
        locked-failed missing q h.store.output_target generation x (q.waiting (put_store s h)) m)
      f

-- ===== src/Api/Output/Quiet.antt =====
-- What a request for the console leaves (src/phono_console/api.py with src/phono_console/runtime.py).
use mathlib.Core.Option
use phono_console.Base.{
  ℕ, String, ◌≡◌, refl, ◌∙◌, inl, inr, Bool, true, false, not, List, [], ◌∷◌, arith, ◌==◌,
  if◌then◌else◌, Bool-cases, is_some,
}
use phono_console.Policy.{OutputTarget, console, PhonoOutputMode, stable, phono, bluetooth}
use phono_console.State.{set_output_target, emit, set_routing_state}
use phono_console.Runtime.Output.{
  carry_out, House, Transition, Action, target_persisted, target_of, after, same_target,
  output_mode_action, disable, disable_source, disable_all, go_local,
}
use phono_console.Runtime.Output.Choice.{quiet_publisher, go_local-is_quiet}
use phono_console.Publisher.Steps.{Step, steps}
use phono_console.Publisher.Steps.Quiet.{all_local}
use phono_console.Api.{Response, ok}
use phono_console.Api.Output.{answer, locked, put_store, Request, set_canonical_output}

abbrev Quiet : {D : Type 0} → House D × List Action × Response → Type 0
Quiet t =
    (t.2 ≡ ok)
    × (quiet_publisher t.0.publisher ≡ true)
    × (t.0.store.output_target ≡ console)
    × (t.0.store.routing_phase ≡ stable)

if_false : {A : Type 0} (b : Bool) (u v : A) → b ≡ false → (if b then u else v) ≡ v
if_false true u v h = cc
if_false false u v h = refl

locked-current :
    {D : Type 0} (missing : String) (q : Request D) (previous : OutputTarget)
    (mode : PhonoOutputMode) (generation : ℕ) (x : Transition D) (h : House D)
    → h.store.routing_generation ≡ generation
    → locked missing q previous mode generation x h
      ≡ answer q previous (target_of mode) generation (output_mode_action missing mode x h)
unfolding locked
locked-current missing q previous mode generation x h same =
    if_false (not (generation == h.store.routing_generation)) (h, [], ok)
      (answer q previous (target_of mode) generation (output_mode_action missing mode x h))
      (ground arith)

action-local :
    {D : Type 0} (missing : String) (x : Transition D) (h : House D)
    → h.store.output_target ≡ console
    → output_mode_action missing PhonoOutputMode.local x h
      ≡ after (target_persisted console) (go_local x h)
unfolding output_mode_action carry_out
action-local missing x h o =
    if_false (not (same_target h.store.output_target console)) (h, [], false)
      (after (target_persisted console) (go_local x h)) (ground arith)

answer-Quiet :
    {D : Type 0} (q : Request D) (previous : OutputTarget) (generation : ℕ) (h : House D)
    (actions : List Action)
    → quiet_publisher h.publisher ≡ true
    → h.store.output_target ≡ console
    → h.store.routing_phase ≡ stable
    → Quiet (answer q previous console generation (h, actions, false))
unfolding answer emit
answer-Quiet q previous generation h actions p o s = (refl, p, o, s)

-- What other tasks do in the waits of the choice: series of whole steps of the publisher that do not
-- enable the distribution, and in the store anything but another choice.
module _ {D : Type 0} (x : Transition D) (did : ℕ → List Step)
    (local : (k : ℕ) → all_local (did k) ≡ true)
    (ran : (k : ℕ) (h : House D)
      → (x.others k h).publisher ≡ Option.map (steps (did k)) h.publisher)
    (kept : (k : ℕ) (h : House D)
      → (x.others k h).store.output_target ≡ h.store.output_target) where
  disable_all-target : (h : House D) → (disable_all x h).store.output_target ≡ h.store.output_target
  unfolding disable_all
  disable_all-target h = elim (Bool-cases (not (is_some h.publisher))) [
    | inl e ↦ rw e refl
    | inr e ↦
        let h₁ = x.others 0 (disable x.sender h) in
        let h₂ = x.others 1 (disable_source x.sender phono h₁) in
        rw e (
          kept 2 (disable_source x.sender bluetooth h₂)
          ∙ (kept 1 (disable_source x.sender phono h₁) ∙ kept 0 (disable x.sender h)))
  ]

  locked-Quiet :
      (missing : String) (q : Request D) (previous : OutputTarget) (h : House D) (generation : ℕ)
      → h.store.routing_generation ≡ generation
      → h.store.output_target ≡ console
      → Quiet (locked missing q previous PhonoOutputMode.local generation x h)
  unfolding go_local set_routing_state
  locked-Quiet missing q previous h generation same o =
      rw
        (
          locked-current missing q previous PhonoOutputMode.local generation x h same,
          action-local missing x h o,
        )
        (answer-Quiet q previous generation (go_local x h).0
          (target_persisted console ∷ (go_local x h).1) (go_local-is_quiet x did local ran h)
          (kept 3 (disable_all x h) ∙ (disable_all-target h ∙ o)) refl)

  -- A choice of the console by a request that is not overtaken while it waits for the lock, whatever
  -- else happens then, and during whose own waits other tasks make no choice and take only whole steps
  -- of the publisher that do not enable the distribution, is carried out and answered as such: it
  -- leaves nothing streamed, asked for or pending, the console chosen and a stable route, whatever the
  -- remote players do.
  pub set_canonical_output-quiet :
      (missing : String) (q : Request D) (h : House D)
      → (q.waiting
          (put_store (set_output_target console true h.store).0 h)).store.routing_generation
        ≡ (set_output_target console true h.store).1
      → (q.waiting (put_store (set_output_target console true h.store).0 h)).store.output_target
        ≡ console
      → (set_canonical_output missing q PhonoOutputMode.local x h).2 ≡ ok
        × quiet_publisher (set_canonical_output missing q PhonoOutputMode.local x h).0.publisher
          ≡ true
        × (set_canonical_output missing q PhonoOutputMode.local x h).0.store.output_target ≡ console
        × (set_canonical_output missing q PhonoOutputMode.local x h).0.store.routing_phase ≡ stable
  unfolding set_canonical_output set_output_target
  set_canonical_output-quiet missing q h current chosen =
      locked-Quiet missing q h.store.output_target
        (q.waiting (put_store (set_output_target console true h.store).0 h))
        (set_output_target console true h.store).1 current chosen

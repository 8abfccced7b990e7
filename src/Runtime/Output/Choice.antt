-- ===== src/Runtime/Output/Choice.antt =====
-- What a choice of output leaves behind (src/phono_console/runtime.py, `output_mode_action`).
use phono_console.Base.{
  ℕ, String, ◌≡◌, refl, ◌≢◌, inl, inr, Bool, true, false, Option, none, some, List, arith, ◌==◌,
  is_some, Option-cases,
}
use mathlib.Core.Option
use phono_console.Policy.{OutputTarget, console, PhonoOutputMode, stable, Source, phono, bluetooth}
use phono_console.State.{set_output_target, set_routing_state}
use phono_console.Publisher.{Publisher}
use phono_console.Publisher.Steps.{Step, source_distribution_set, step, steps}
use phono_console.Publisher.Steps.Quiet.{
  all_local, is_local, is_quiet, is_muted, muting, step-is_muted, steps-is_muted, is_quiet_of_muted,
}
use phono_console.Runtime.Output.{
  carry_out, choose_output, output_mode_action, disable, disable_source, disable_all, House,
  Transition, played, go_local, value_of, parse_target, restore_target,
}

abbrev pub quiet_publisher : Option Publisher → Bool
quiet_publisher none = true
quiet_publisher (some p) = is_quiet p

-- Quiet, and disabled.
abbrev muted_publisher : Option Publisher → Bool
muted_publisher none = true
muted_publisher (some p) = is_muted p

-- What other tasks do in a wait is a series of whole steps of the publisher.
module _ {D : Type 0} (x : Transition D) (did : ℕ → List Step)
    (local : (k : ℕ) → all_local (did k) ≡ true)
    (ran : (k : ℕ) (h : House D)
      → (x.others k h).publisher ≡ Option.map (steps (did k)) h.publisher) where
  others-muted :
      (k : ℕ) (h : House D)
      → muted_publisher h.publisher ≡ true
      → muted_publisher (x.others k h).publisher ≡ true
  others-muted k h m = rw (ran k h) (elim (Option-cases h.publisher) [
    | inl e ↦ rw e refl
    | inr (p, e) ↦ rw e (steps-is_muted (did k) p (local k) (rw e at m))
  ])

  source-muted :
      (wanted : Source) (h : House D)
      → muted_publisher h.publisher ≡ true
      → muted_publisher (disable_source x.sender wanted h).publisher ≡ true
  unfolding step is_local
  source-muted wanted h m = elim (Option-cases h.publisher) [
    | inl e ↦ rw e refl
    | inr (p, e) ↦
        rw e (step-is_muted (source_distribution_set x.sender wanted false) p refl (rw e at m))
  ]

  disable-muted : (h : House D) → muted_publisher (disable x.sender h).publisher ≡ true
  disable-muted h = elim (Option-cases h.publisher) [
    | inl e ↦ rw e refl
    | inr (p, e) ↦ rw e (muting x.sender p)
  ]

  disable_all-muted : (h : House D) → muted_publisher (disable_all x h).publisher ≡ true
  unfolding disable_all
  disable_all-muted h = elim (Option-cases h.publisher) [
    | inl e ↦ rw e refl
    | inr (p, e) ↦
        let is_there : is_some h.publisher ≡ true = rw e refl in
        let h₁ = x.others 0 (disable x.sender h) in
        let h₂ = x.others 1 (disable_source x.sender phono h₁) in
        let first = others-muted 0 (disable x.sender h) (disable-muted h) in
        let second =
          others-muted 1 (disable_source x.sender phono h₁) (source-muted phono h₁ first) in
        rw is_there
          (others-muted 2 (disable_source x.sender bluetooth h₂) (source-muted bluetooth h₂ second))
  ]

  pub go_local-is_quiet : (h : House D) → quiet_publisher (go_local x h).0.publisher ≡ true
  unfolding go_local
  go_local-is_quiet h =
      quiet_of_muted (x.others 3 (disable_all x h)).publisher
        (others-muted 3 (disable_all x h) (disable_all-muted h))
    where
      quiet_of_muted : (p : Option Publisher) → muted_publisher p ≡ true → quiet_publisher p ≡ true
      quiet_of_muted none m = refl
      quiet_of_muted (some p) m = is_quiet_of_muted p m

  -- When the user chooses the console by a press, the action ends with nothing streamed, asked for or
  -- pending and a stable route without a session. It does not raise, whether or not the stop of the
  -- players is confirmed.
  choose_output-quiet :
      (missing : String) (h : House D)
      → quiet_publisher (choose_output missing PhonoOutputMode.local x h).0.publisher ≡ true
        × (choose_output missing PhonoOutputMode.local x h).0.store.routing_phase ≡ stable
        × (choose_output missing PhonoOutputMode.local x h).0.store.routing_session_generation
          ≡ none
        × (choose_output missing PhonoOutputMode.local x h).2 ≡ false
  unfolding choose_output output_mode_action carry_out go_local set_output_target set_routing_state
  choose_output-quiet missing h = (
    go_local-is_quiet (record h { store = (set_output_target console true h.store).0 }),
    refl,
    refl,
    refl,
  )

-- A play request that is overtaken by a new choice writes nothing: the store is what the other tasks
-- made of it.
pub played-overtaken :
    {D : Type 0} (missing : String) (generation : ℕ) (wanted : Source) (x : Transition D)
    (h : House D)
    → (x.meanwhile h.store).routing_generation ≢ generation
    → (played missing generation wanted x h).0.store ≡ x.meanwhile h.store
unfolding played
played-overtaken missing generation wanted x h d =
    let apart : ((x.meanwhile h.store).routing_generation == generation) ≡ false = ground arith in
    elim (Option-cases x.started) [
      | inl e ↦ rw (played, e) refl
      | inr (started, e) ↦ rw (played, e, apart) refl
    ]

-- The target that was persisted last is the target after a restart, whatever the old markers say.
pub restore_target-value_of :
    (t first : OutputTarget) (local_only fresh : Bool)
    → restore_target (some (value_of t)) local_only fresh first ≡ t
unfolding restore_target parse_target value_of
restore_target-value_of console first local_only fresh = refl
restore_target-value_of OutputTarget.downstairs first local_only fresh = refl

-- ===== src/State/Intent.antt =====
-- The user's intent in `StateStore` (src/phono_console/state.py): its three views, its generation
-- and the confirmation that `snapshot` reports.
use phono_console.Base.{
  ℕ, ◌+◌, String, ◌≡◌, refl, Bool, true, false, not, ◌&&◌, Option, none, some, List, [], ◌∷◌, arith,
  if◌then◌else◌, ℤ,
}
use phono_console.Policy.{
  OutputTarget, console, downstairs, RoutingPhase, Source, PhonoOutputMode, local, is_distributed,
}
use phono_console.Controller.{Status}
use phono_console.State.{
  StateStore, ComponentStatus, set_status, set_component, set_output_target, request_whole_house,
  set_local_playback_only, set_phono_output_mode, set_routing_state, local_playback_only,
  phono_output_mode, whole_house_requested, confirmed, emit, clear_input_levels, set_input_levels,
  reset_input_level_history, ChannelLevel, set_source_state, set_music_assistant_state,
  set_bluetooth_state, set_system_info,
}

-- What a call that wants Downstairs, or not, leaves.
pub record Intended {D : Type 0} (wanted : Bool) (s s' : StateStore D) : Type 0 where
  pub house : whole_house_requested s' ≡ wanted
  pub local_only : local_playback_only s' ≡ not wanted
  pub mode : phono_output_mode s' ≡ (if wanted then PhonoOutputMode.downstairs else local)
  pub generation : s'.routing_generation ≡ s.routing_generation + 1
  pub unconfirmed : confirmed s' ≡ false
  pub no_error : s'.routing_error ≡ none

abbrev pub wants_downstairs : PhonoOutputMode → Bool
wants_downstairs local = false
wants_downstairs PhonoOutputMode.downstairs = true

never_confirmed :
    (o : Option Status)
    → elim o [ none ↦ false | some status ↦ is_distributed status.route && false ] ≡ false
never_confirmed none = refl
never_confirmed (some status) = ground arith

targeted :
    {D : Type 0} (b : Bool) (s : StateStore D)
    → Intended b s (set_output_target (if b then downstairs else console) true s).0
unfolding set_output_target whole_house_requested local_playback_only phono_output_mode confirmed
targeted true s = record {
  house = refl;
  local_only = refl;
  mode = refl;
  generation = refl;
  unconfirmed = never_confirmed s.status;
  no_error = refl;
}
targeted false s = record {
  house = refl;
  local_only = refl;
  mode = refl;
  generation = refl;
  unconfirmed = never_confirmed s.status;
  no_error = refl;
}

local_only-Intended :
    {D : Type 0} (b : Bool) (s : StateStore D) → Intended (not b) s (set_local_playback_only b s)
unfolding set_local_playback_only
local_only-Intended true s = targeted false s
local_only-Intended false s = targeted true s

mode-Intended :
    {D : Type 0} (mode : PhonoOutputMode) (s : StateStore D)
    → Intended (wants_downstairs mode) s (set_phono_output_mode mode s)
unfolding set_phono_output_mode
mode-Intended local s = targeted false s
mode-Intended PhonoOutputMode.downstairs s = targeted true s

-- Each of the three setters is read back by its own view, the other two views agree with it, the
-- generation goes up by one, the error is cleared, and the snapshot confirms nothing.
pub setters-Intended :
    {D : Type 0} (b : Bool) (mode : PhonoOutputMode) (s : StateStore D)
    → Intended b s (request_whole_house b s)
      × Intended (not b) s (set_local_playback_only b s)
      × Intended (wants_downstairs mode) s (set_phono_output_mode mode s)
unfolding request_whole_house set_local_playback_only set_phono_output_mode set_output_target
    whole_house_requested local_playback_only phono_output_mode confirmed
setters-Intended b mode s = (targeted b s, local_only-Intended b s, mode-Intended mode s)

-- Every method of the store that changes it.
pub data Operation (D : Type 0) : Type 0 where
  on_status : Status → ℕ → Operation D
  on_component : String → Option ComponentStatus → String → D → ℕ → Operation D
  on_source on_music_assistant on_bluetooth on_system : D → Operation D
  on_levels : ChannelLevel → ChannelLevel → Operation D
  on_clear : Operation D
  on_reset : ℤ → Operation D
  on_target : OutputTarget → Bool → Operation D
  on_routing : RoutingPhase → Option ℕ → Source → Option String → Operation D
  on_event : String → D → ℕ → Operation D

abbrev keep : {D : Type 0} → Option (StateStore D) → StateStore D → StateStore D
keep none s = s
keep (some s') s = s'

-- A method that raises leaves the store as it was.
unfoldable pub act : {D : Type 0} → (D → D → Bool) → Operation D → StateStore D → StateStore D
act same (on_status status now) s = set_status status now s
act same (on_component name status message details now) s =
    keep (set_component same name status message details now s) s
act same (on_source d) s = set_source_state d s
act same (on_music_assistant d) s = set_music_assistant_state d s
act same (on_bluetooth d) s = set_bluetooth_state d s
act same (on_system d) s = set_system_info d s
act same (on_levels l r) s = set_input_levels l r s
act same on_clear s = clear_input_levels s
act same (on_reset floor) s = reset_input_level_history floor s
act same (on_target target increment) s = (set_output_target target increment s).0
act same (on_routing phase generation source error) s =
    set_routing_state phase generation source error s
act same (on_event event details now) s = emit event details now s

unfoldable pub act_all :
    {D : Type 0} → (D → D → Bool) → List (Operation D) → StateStore D → StateStore D
act_all same [] s = s
act_all same (o ∷ os) s = act_all same os (act same o s)

-- The choices among these operations; a target that is put back is none.
unfoldable pub choices : {D : Type 0} → List (Operation D) → ℕ
choices [] = 0
choices (on_target target true ∷ os) = choices os + 1
choices (o ∷ os) = choices os

act_all-on_target :
    {D : Type 0} (same : D → D → Bool) (target : OutputTarget) (increment : Bool) (s : StateStore D)
    → (act same (on_target target increment) s).routing_generation
      ≡ s.routing_generation + (if increment then 1 else 0)
unfolding act set_output_target
act_all-on_target same target increment s = ground arith

-- Whatever is called, and in whatever order, the generation counts the choices.
pub act_all-generation :
    {D : Type 0} (same : D → D → Bool) (os : List (Operation D)) (s : StateStore D)
    → (act_all same os s).routing_generation ≡ s.routing_generation + choices os
unfolding act_all act choices set_status set_component set_source_state set_music_assistant_state
    set_bluetooth_state set_system_info set_input_levels clear_input_levels
    reset_input_level_history set_routing_state emit
act_all-generation same [] s = omega arith
act_all-generation same (on_target target true ∷ os) s = omega (
  arith,
  act_all-generation same os (act same (on_target target true) s),
  act_all-on_target same target true s,
)
act_all-generation same (on_target target false ∷ os) s = omega (
  arith,
  act_all-generation same os (act same (on_target target false) s),
  act_all-on_target same target false s,
)
act_all-generation same (on_component name none message details now ∷ os) s =
    act_all-generation same os s
act_all-generation same (on_component name (some status) message details now ∷ os) s =
    act_all-generation same os (act same (on_component name (some status) message details now) s)
act_all-generation same (o ∷ os) s = act_all-generation same os (act same o s)

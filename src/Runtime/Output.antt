-- ===== src/Runtime/Output.antt =====
-- src/phono_console/runtime.py: `output_mode_action`, which carries out the user's choice between the
-- console and downstairs, and what survives a restart.
--
-- The store and the publisher are one state. What Music Assistant does is an argument, and so is what
-- other tasks do to the store while the play request is waited for, and to both while a choice of
-- the console waits for the publisher and for the stop of the players. The calls that enable the
-- distribution and select the source are one step, and the action finds its own lock free: no press
-- of the encoder is carried out at the same time.
pub mod Choice
use text.Mathlib.Text.{◌==◌ as str_eq}
use phono_console.Base.{
  ℕ, zero, suc, ◌+◌, ◌-◌, ◌*◌, ◌/◌, ◌%◌, ◌^◌, ◌≤◌, ◌<◌, String, ◌≡◌, refl, sym, ap, ◌∙◌, subst, ◌≢◌,
  ◌↔◌, ◌⊎◌, inl, inr, Bool, true, false, not, ◌&&◌, ◌||◌, Option, none, some, List, [], ◌∷◌, ◌++◌,
  map, arith, ltb, leb, ◌==◌, if◌then◌else◌, leb→le, ==_iff, Bool-cases, Option-cases, is_some,
  length, take, drop, length-append, length-drop, All, All-append, take-append, drop-append,
  take-append-drop, length-take, take-add, take_last, drop-append_le, drop-drop, take_last-append,
  All-take, All-drop, ℤ, pos, negsuc, pos_part, neg_part, sub_ℕ, ◌+ℤ◌, ◌-ℤ◌, ◌≤ℤ◌, leb_ℤ, ltb_ℤ,
  +ℤ_parts, -ℤ_parts, eq_of_parts, int_laws,
}
use mathlib.Core.Option
use phono_console.Policy.{
  OutputTarget, console, PhonoOutputMode, is_downstairs, RoutingPhase, stable, degraded,
  starting_distribution, Source, no_source, phono, bluetooth, is_source,
}
use phono_console.State.{set_output_target, StateStore, set_routing_state}
use phono_console.Runtime.{active_source}
use phono_console.Publisher.{Publisher}
use phono_console.Publisher.Commands.{
  Sender, set_distribution_enabled, set_source_distribution_enabled, select_source,
}

pub record House (D : Type 0) : Type 0 where
  pub store : StateStore D
  pub publisher : Option Publisher

pub data Action : Type 0 where
  target_persisted : OutputTarget → Action
  target_stopped : Action
  stop_unconfirmed : String → Action
  source_played : Source → Action

-- How the calls of a transition go.
pub record Transition (D : Type 0) : Type 0 where
  pub sender : Sender
  -- What other tasks do to the store and the publisher during the waits of a choice of the console,
  -- which are numbered from 0.
  pub others : ℕ → House D → House D
  -- The exception of `stop_players`.
  pub stop_error : Option String
  -- `publisher.client_id is not None`
  pub has_client_id : Bool
  -- Bluetooth plays, and its last sample is at most half a second old.
  pub bluetooth_live : Bool
  -- How the capture starts, where `select_source` restarts it.
  pub capture : Option String
  -- What other tasks do to the store during `play_vinyl_source`, and whether it started a player;
  -- `none` is an exception.
  pub meanwhile : StateStore D → StateStore D
  pub started : Option Bool

abbrev pub target_of : PhonoOutputMode → OutputTarget
target_of PhonoOutputMode.downstairs = OutputTarget.downstairs
target_of PhonoOutputMode.local = console

abbrev pub same_target : OutputTarget → OutputTarget → Bool
same_target console console = true
same_target OutputTarget.downstairs OutputTarget.downstairs = true
same_target _ _ = false

-- The three calls that enable or disable the distribution.
unfoldable pub enable_all : Sender → Bool → Publisher → Publisher
unfolding set_distribution_enabled set_source_distribution_enabled
enable_all to enabled p =
    (set_source_distribution_enabled to bluetooth enabled
      (set_source_distribution_enabled to phono enabled
        (set_distribution_enabled to enabled p).0).0).0

abbrev settle : {D : Type 0} → RoutingPhase → Option String → House D → House D
settle phase error h = record h { store = set_routing_state phase none no_source error h.store }

-- The result of an action: the state, the calls in order, and whether it raised.
abbrev pub Result : Type 0 → Type 0
Result D = House D × List Action × Bool

-- A call on the publisher.
abbrev pub call : {D : Type 0} → (Publisher → Publisher) → House D → House D
call f h = record h { publisher = Option.map f h.publisher }

abbrev pub disable : {D : Type 0} → Sender → House D → House D
disable to h = call (λ p. (set_distribution_enabled to false p).0) h

abbrev pub disable_source : {D : Type 0} → Sender → Source → House D → House D
disable_source to wanted h = call (λ p. (set_source_distribution_enabled to wanted false p).0) h

-- The three calls that disable the distribution, each with what other tasks do while it is awaited.
unfoldable pub disable_all : {D : Type 0} → Transition D → House D → House D
unfolding set_distribution_enabled set_source_distribution_enabled
disable_all x h =
    if not (is_some h.publisher)
    then h
    else (let h₁ = x.others 0 (disable x.sender h) in
        let h₂ = x.others 1 (disable_source x.sender phono h₁) in
        x.others 2 (disable_source x.sender bluetooth h₂))

-- The choice is the console. The stop of the players is the fourth wait.
unfoldable pub go_local : {D : Type 0} → Transition D → House D → Result D
unfolding disable_all set_routing_state
go_local x h = (
  settle stable none (x.others 3 (disable_all x h)),
  target_stopped ∷ (elim x.stop_error [ none ↦ [] | some error ↦ stop_unconfirmed error ∷ [] ]),
  false,
)

abbrev pub unconnected : String
unconnected = "Sendspin source is not connected; playing locally"

-- The end of the transition, when `play_vinyl_source` has returned.
unfoldable pub played : {D : Type 0} → String → ℕ → Source → Transition D → House D → Result D
unfolding set_routing_state
played missing generation wanted x h =
    let h' = record h { store = x.meanwhile h.store } in
    elim x.started as (λ _. Result _) [
      | none ↦ (h', source_played wanted ∷ [], true)
      | some started ↦ (
        if (h'.store.routing_generation == generation) && not started
            then record h' {
              store = set_routing_state degraded (some generation) wanted (some missing) h'.store;
            }
            else h',
        source_played wanted ∷ [],
        false,
      )
    ]

-- The publisher is enabled, and there is a source to play.
unfoldable pub start_session :
    {D : Type 0} → String → ℕ → Source → Transition D → Publisher → House D → Result D
unfolding set_routing_state select_source played
start_session missing generation wanted x p h =
    let announced = record h {
      store = set_routing_state starting_distribution (some generation) wanted none h.store;
    } in
    elim (select_source wanted x.capture p) [
      | none ↦ (announced, [], true)
      | some (p', effects) ↦
          played missing generation wanted x (record announced { publisher = some p' })
    ]

-- The choice is downstairs.
unfoldable pub go_downstairs : {D : Type 0} → String → Transition D → Publisher → House D → Result D
unfolding enable_all set_routing_state start_session
go_downstairs missing x p h =
    if not x.has_client_id
    then (settle degraded (some unconnected) h, [], false)
    else (let p' = enable_all x.sender true p in
        let enabled = record h { publisher = some p' } in
        let wanted = active_source h.store.status in
        if is_source wanted no_source
        then (settle stable none enabled, [], false)
        else (if is_source wanted bluetooth && not x.bluetooth_live
            then (settle starting_distribution none enabled, [], false)
            else start_session missing h.store.routing_generation wanted x p' enabled))

unfoldable pub carry_out : {D : Type 0} → String → OutputTarget → Transition D → House D → Result D
unfolding go_local go_downstairs set_routing_state
carry_out missing console x h = go_local x h
carry_out missing OutputTarget.downstairs x h = elim h.publisher [
  | none ↦ (settle degraded (some unconnected) h, [], false)
  | some p ↦ go_downstairs missing x p h
]

abbrev pub after : {D : Type 0} → Action → Result D → Result D
after a r = (r.0, a ∷ r.1, r.2)

-- `output_mode_action`; `missing` is the message for a target that was not found.
unfoldable pub output_mode_action :
    {D : Type 0} → String → PhonoOutputMode → Transition D → House D → Result D
unfolding carry_out
output_mode_action missing mode x h =
    if not (same_target h.store.output_target (target_of mode))
    then (h, [], false)
    else after (target_persisted (target_of mode)) (carry_out missing (target_of mode) x h)

-- A choice by the press of the encoder: the store's target is set, and the action carries it out.
unfoldable pub choose_output :
    {D : Type 0} → String → PhonoOutputMode → Transition D → House D → Result D
unfolding set_output_target output_mode_action
choose_output missing mode x h =
    output_mode_action missing mode x
      (record h { store = (set_output_target (target_of mode) true h.store).0 })

-- The text of `persist_output_target`, less the line feed.
unfoldable pub value_of : OutputTarget → String
value_of console = "console"
value_of OutputTarget.downstairs = "downstairs"

-- `OutputTarget(text)`; `none` is the `ValueError`.
unfoldable pub parse_target : String → Option OutputTarget
parse_target text =
    if str_eq text "console"
    then some console
    else (if str_eq text "downstairs" then some OutputTarget.downstairs else none)

-- The start of `run_daemon`: the stripped text of the file if it exists, the two old markers, and the
-- store's first target.
unfoldable pub restore_target : Option String → Bool → Bool → OutputTarget → OutputTarget
unfolding parse_target
restore_target (some text) local_only fresh first = elim (parse_target text) [
  | none ↦ first
  | some target ↦ target
]
restore_target none local_only fresh first =
    if local_only then console else (if fresh then OutputTarget.downstairs else first)

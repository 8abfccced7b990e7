-- ===== src/Api/Output.antt =====
-- `ControlApi._set_canonical_output` (src/phono_console/api.py): the one way of a request to the output,
-- with the action of `run_daemon`.
pub mod Choices
pub mod Quiet
pub mod Overtaken
use phono_console.Base.{
  ℕ, zero, suc, ◌+◌, ◌-◌, ◌*◌, ◌/◌, ◌%◌, ◌^◌, ◌≤◌, ◌<◌, String, ◌≡◌, refl, sym, ap, ◌∙◌, subst, ◌≢◌,
  ◌↔◌, ◌⊎◌, inl, inr, Bool, true, false, not, ◌&&◌, ◌||◌, Option, none, some, List, [], ◌∷◌, ◌++◌,
  map, arith, ltb, leb, ◌==◌, if◌then◌else◌, leb→le, ==_iff, Bool-cases, Option-cases, is_some,
  length, take, drop, length-append, length-drop, All, All-append, take-append, drop-append,
  take-append-drop, length-take, take-add, take_last, drop-append_le, drop-drop, take_last-append,
  All-take, All-drop, ℤ, pos, negsuc, pos_part, neg_part, sub_ℕ, ◌+ℤ◌, ◌-ℤ◌, ◌≤ℤ◌, leb_ℤ, ltb_ℤ,
  +ℤ_parts, -ℤ_parts, eq_of_parts, int_laws,
}
use phono_console.Policy.{OutputTarget, console, PhonoOutputMode, RoutingPhase, stable, Source}
use phono_console.State.{StateStore, set_output_target, emit, set_routing_state}
use phono_console.Publisher.{Publisher}
use phono_console.Runtime.Output.{
  House, Transition, Action, Result, target_of, same_target, output_mode_action,
}
use phono_console.Api.{Response, ok, conflict, unavailable}

-- What the request meets: whether Downstairs is available, what other tasks do to the store and the
-- publisher while it waits for the lock, and the details and the time of the event.
pub record Request (D : Type 0) : Type 0 where
  pub available : Bool
  pub waiting : House D → House D
  pub details : D
  pub now : ℕ

abbrev pub put_store : {D : Type 0} → StateStore D → House D → House D
put_store s h = record h { store = s }

-- The failure of a choice of downstairs: the previous target comes back, unless a newer choice has
-- been made.
unfoldable pub roll_back : {D : Type 0} → OutputTarget → ℕ → House D → House D
unfolding set_output_target
roll_back previous generation h =
    if generation == h.store.routing_generation
    then put_store (set_output_target previous false h.store).0 h
    else h

-- What the request makes of the end of the action.
unfoldable pub answer :
    {D : Type 0}
    → Request D
    → OutputTarget
    → OutputTarget
    → ℕ
    → Result D
    → House D × List Action × Response
unfolding emit roll_back
answer q previous target generation (h, actions, raised) =
    if raised && same_target target OutputTarget.downstairs
    then (roll_back previous generation h, actions, unavailable)
    else (let failed =
          if raised
          then emit "output_remote_stop_unconfirmed" q.details q.now h.store
          else h.store in
        (put_store (emit "output_mode_changed" q.details q.now failed) h, actions, ok))

-- The part of `_set_canonical_output` that has the lock.
unfoldable pub locked :
    {D : Type 0}
    → String
    → Request D
    → OutputTarget
    → PhonoOutputMode
    → ℕ
    → Transition D
    → House D
    → House D × List Action × Response
unfolding output_mode_action answer
locked missing q previous mode generation x h =
    if not (generation == h.store.routing_generation)
    then (h, [], ok)
    else answer q previous (target_of mode) generation (output_mode_action missing mode x h)

-- `_set_canonical_output`; an overtaken choice is answered like one that was carried out.
unfoldable pub set_canonical_output :
    {D : Type 0}
    → String
    → Request D
    → PhonoOutputMode
    → Transition D
    → House D
    → House D × List Action × Response
unfolding set_output_target locked
set_canonical_output missing q mode x h =
    if same_target (target_of mode) OutputTarget.downstairs && not q.available
    then (h, [], conflict)
    else (let (s, generation) = set_output_target (target_of mode) true h.store in
        locked missing q h.store.output_target mode generation x (q.waiting (put_store s h)))

-- ===== src/Controls.antt =====
-- src/phono_console/controls.py: the encoder's route-dependent meaning and the event queue of
-- `HardwareControls`.
--
-- The GPIO library and asyncio are outside: `_enqueue` is called for each GPIO event in their
-- order, and what arrives during the coalescing sleep of a turn is a list that is given to the
-- handler. The actions (`turn_action`, `press_action`) are outside too: the model lists the calls.
-- An action that raises is reported and does not change what follows, so its outcome is no part of
-- the state.
pub mod Counts
pub mod Serving
pub mod Tests
use phono_console.Base.{
  ℕ, zero, suc, Bool, true, false, Option, none, some, List, [], ◌∷◌, ◌++◌, leb, if◌then◌else◌,
  length, ℤ, pos, negsuc, ◌+ℤ◌,
}
use phono_console.Policy.{
  Route, idle, local_phono, local_bluetooth, ma_playback, distributed_phono, distributed_bluetooth,
}

pub data VolumeTarget : Type 0 where
  local downstairs no_target : VolumeTarget

pub data PressCommand : Type 0 where
  phono_downstairs phono_local stop_bluetooth stop_ma no_press : PressCommand

unfoldable pub volume_target_for_route : Route → VolumeTarget
volume_target_for_route local_phono = local
volume_target_for_route local_bluetooth = local
volume_target_for_route ma_playback = downstairs
volume_target_for_route distributed_phono = downstairs
volume_target_for_route distributed_bluetooth = downstairs
volume_target_for_route idle = no_target

unfoldable pub press_command_for_route : Route → PressCommand
press_command_for_route local_phono = phono_downstairs
press_command_for_route distributed_phono = phono_local
press_command_for_route local_bluetooth = stop_bluetooth
press_command_for_route distributed_bluetooth = stop_bluetooth
press_command_for_route ma_playback = stop_ma
press_command_for_route idle = no_press

-- `_ControlEvent`
pub data ControlEvent : Type 0 where
  turn : ℤ → ControlEvent
  press : ControlEvent

pub record HardwareControls : Type 0 where
  pub volume_step : ℕ
  pub queue : List ControlEvent
  pub pending : List ControlEvent

abbrev pub max_queue : ℕ
max_queue = 128

abbrev pub drop_oldest : List ControlEvent → List ControlEvent
drop_oldest [] = []
drop_oldest (x ∷ xs) = xs

-- `_enqueue`: a full queue loses its oldest event.
unfoldable pub enqueue : ControlEvent → HardwareControls → HardwareControls
enqueue e c = record c {
  queue = (if leb max_queue (length c.queue) then drop_oldest c.queue else c.queue) ++ (e ∷ []);
}

unfoldable pub enqueue_all : List ControlEvent → HardwareControls → HardwareControls
enqueue_all [] c = c
enqueue_all (e ∷ es) c = enqueue_all es (enqueue e c)

-- `_next_event` where one is at hand: pending events go first. `none` waits, or stops.
unfoldable pub next_event : HardwareControls → HardwareControls × Option ControlEvent
next_event c = elim c.pending [
  | e ∷ rest ↦ (record c { pending = rest }, some e)
  | [] ↦ elim c.queue [ e ∷ rest ↦ (record c { queue = rest }, some e) | [] ↦ (c, none) ]
]

-- The calls of the two actions.
pub data Call : Type 0 where
  turn_action : ℤ → Call
  press_action : Call

-- `delta * volume_step`
unfoldable pub times : ℤ → ℕ → ℤ
times d zero = pos 0
times d (suc n) = times d n +ℤ d

unfoldable pub is_zero : ℤ → Bool
is_zero (pos zero) = true
is_zero (pos (suc n)) = false
is_zero (negsuc n) = false

-- The loop of `_handle_turn` over the queue: the summed turns, and the presses that are kept.
unfoldable pub drain : List ControlEvent → ℤ → List ControlEvent → ℤ × List ControlEvent
drain [] delta pending = (delta, pending)
drain (turn d ∷ es) delta pending = drain es (delta +ℤ d) pending
drain (press ∷ es) delta pending = drain es delta (pending ++ (press ∷ []))

-- `_handle_turn`: `arrived` came in during the coalescing sleep.
unfoldable pub handle_turn : ℤ → List ControlEvent → HardwareControls → HardwareControls × List Call
handle_turn first arrived c =
    let c' = enqueue_all arrived c in
    let (delta, kept) = drain c'.queue first c'.pending in
    let scaled = times delta c.volume_step in
    (
      record c' { queue = []; pending = kept },
      if is_zero scaled then [] else turn_action scaled ∷ [],
    )

-- One event of the loop in `run`.
unfoldable pub handle :
    List ControlEvent → ControlEvent → HardwareControls → HardwareControls × List Call
handle arrived (turn d) c = handle_turn d arrived c
handle arrived press c = (enqueue_all arrived c, press_action ∷ [])

-- The loop of `run` until nothing is left, with no further arrivals. Fuel: an event a round.
unfoldable pub serve : ℕ → HardwareControls → HardwareControls × List Call
serve zero c = (c, [])
serve (suc fuel) c =
    let (c', r) = next_event c in
    elim r [
      | none ↦ (c', [])
      | some e ↦
          let (c'', calls) = handle [] e c' in
          let (c₃, more) = serve fuel c'' in (c₃, calls ++ more)
    ]

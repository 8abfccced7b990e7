-- ===== src/Bluetooth.antt =====
-- src/phono_console/bluetooth.py: `BluetoothManager`, its agent, its pairing window and the volume of
-- the phone.
--
-- bluetoothctl is outside: whether a command reaches it is an argument, and the volume that is parsed
-- from its text. The timer of the window is a task, known by its number.
pub mod Window
pub mod Volume
mod Tests
use phono_console.Base.{
  ℕ, zero, suc, ◌+◌, ◌-◌, ◌*◌, ◌/◌, ◌%◌, ◌^◌, ◌≤◌, ◌<◌, String, ◌≡◌, refl, sym, ap, ◌∙◌, subst, ◌≢◌,
  ◌↔◌, ◌⊎◌, inl, inr, Bool, true, false, not, ◌&&◌, ◌||◌, Option, none, some, List, [], ◌∷◌, ◌++◌,
  map, arith, ltb, leb, ◌==◌, if◌then◌else◌, leb→le, ==_iff, Bool-cases, Option-cases, is_some,
  length, take, drop, length-append, length-drop, All, All-append, take-append, drop-append,
  take-append-drop, length-take, take-add, take_last, drop-append_le, drop-drop, take_last-append,
  All-take, All-drop, ℤ, pos, negsuc, pos_part, neg_part, sub_ℕ, ◌+ℤ◌, ◌-ℤ◌, ◌≤ℤ◌, leb_ℤ, ltb_ℤ,
  +ℤ_parts, -ℤ_parts, eq_of_parts, int_laws,
}
use phono_console.Amplifier.{round_div}

pub record Manager : Type 0 where
  -- The agent's process is there and has not ended.
  pub running : Bool
  pub pairing_active : Bool
  pub pairing_task : Option ℕ
  pub next_task : ℕ
  pub last_transport_volume : Option ℕ
  -- The entries `agent` and `pairing` of the published state.
  pub published_agent : Bool
  pub published_pairing : Bool

-- `__init__`
abbrev pub initial : Manager
initial = record {
  running = false;
  pairing_active = false;
  pairing_task = none;
  next_task = 0;
  last_transport_volume = none;
  published_agent = false;
  published_pairing = false;
}

-- `open_pairing`, and whether it raised; `sent` is false where a write to the agent raises.
unfoldable pub open_pairing : Bool → Manager → Manager × Bool
open_pairing sent m =
    if m.running && sent
    then (
      record m {
        pairing_active = true;
        pairing_task = some m.next_task;
        next_task = m.next_task + 1;
        published_pairing = true;
      },
      false,
    )
    else (record m { pairing_active = true }, true)

-- `close_pairing`; the failure of its commands is suppressed, and `listed` is false where the listing
-- of the devices raises.
unfoldable pub close_pairing : Bool → Manager → Manager × Bool
close_pairing listed m =
    let m' = record m { pairing_active = false; pairing_task = none } in
    if listed then (record m' { published_pairing = false }, false) else (m', true)

abbrev pub is_task : Option ℕ → ℕ → Bool
is_task none id = false
is_task (some t) id = t == id

-- `_close_after_timeout` in the task `id`, when its sleep is over; a task that was cancelled does not
-- come to that.
unfoldable pub window_over : ℕ → Bool → Manager → Manager
unfolding close_pairing
window_over id listed m = if is_task m.pairing_task id then (close_pairing listed m).0 else m

-- `_read_agent_output` at a prompt: the answer.
unfoldable pub answer_prompt : Manager → Option Bool
answer_prompt m = if m.running then some m.pairing_active else none

-- `_stop_agent`
unfoldable pub stop_agent : Manager → Manager
stop_agent m = record m { running = false; pairing_active = false }

-- In `run`: the agent has started and has been set up.
unfoldable pub agent_started : Manager → Manager
agent_started m = record m { running = true; published_agent = true; published_pairing = false }

-- In `run`: the agent's process has ended by itself.
unfoldable pub agent_exited : Manager → Manager
agent_exited m = record m { running = false }

-- In `run`: the start of the agent has raised.
unfoldable pub agent_failed : Manager → Manager
unfolding stop_agent
agent_failed m = record (stop_agent m) { published_agent = false }

-- `close`
unfoldable pub close : Manager → Manager
unfolding stop_agent
close m = record (stop_agent (record m { pairing_task = none })) {
  published_agent = false;
  published_pairing = false;
}

-- `map_transport_volume`: 1..127 onto the range, and 0 is mute.
unfoldable pub map_transport_volume : ℕ → ℕ → ℕ → ℕ
unfolding round_div
map_transport_volume raw_volume minimum maximum =
    let raw = if ltb 127 raw_volume then 127 else raw_volume in
    if raw == 0 then 0 else round_div (minimum * 126 + (raw - 1) * (maximum - minimum)) 126

-- The first volume that a transport shows; `none` is a transport without one.
unfoldable pub first_volume : List (Option ℕ) → Option ℕ
first_volume [] = none
first_volume (some v ∷ shown) = some v
first_volume (none ∷ shown) = first_volume shown

abbrev is_same : Option ℕ → ℕ → Bool
is_same none v = false
is_same (some u) v = u == v

-- `_refresh_transport_volume`, and the volume for the action.
unfoldable pub refresh_transport_volume : ℕ → ℕ → List (Option ℕ) → Manager → Manager × Option ℕ
unfolding map_transport_volume first_volume
refresh_transport_volume minimum maximum shown m = elim (first_volume shown) [
  | none ↦ (m, none)
  | some raw ↦ if is_same m.last_transport_volume raw then (m, none) else (
    record m { last_transport_volume = some raw },
    some (map_transport_volume raw minimum maximum),
  )
]

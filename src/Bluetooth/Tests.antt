-- ===== src/Bluetooth/Tests.antt =====
-- Tests of `BluetoothManager` (src/phono_console/bluetooth.py), and the properties at concrete windows.
use phono_console.Base.{◌≤◌, ◌≡◌, refl, true, false, none, some, List, [], ◌∷◌, arith}
use phono_console.Bluetooth.{
  initial, open_pairing, answer_prompt, agent_started, map_transport_volume,
  refresh_transport_volume, first_volume,
}
use phono_console.Bluetooth.Window.{
  Step, opened, timed_out, started, exited, step, steps, all_reach, is_timed, steps-is_timed,
  opened_for_good,
}
use phono_console.Bluetooth.Volume.{map_transport_volume_bounds}

-- The agent ends and is started again while the window is open.
abbrev a_window : List Step
a_window = started ∷ opened true ∷ exited ∷ started ∷ opened true ∷ timed_out 0 true ∷ []

window_test : answer_prompt (steps a_window initial) ≡ some true
unfolding steps step answer_prompt
window_test = refl

closed_test :
    answer_prompt (steps (started ∷ opened true ∷ timed_out 0 true ∷ []) initial) ≡ some false
unfolding steps step answer_prompt
closed_test = refl

steps-is_timed_example : is_timed (steps a_window initial) ≡ true
unfolding all_reach is_timed
steps-is_timed_example = steps-is_timed a_window initial refl refl

opened_for_good_example :
    (open_pairing true initial).1 ≡ true
    × answer_prompt (agent_started (open_pairing true initial).0) ≡ some true
    × (agent_started (open_pairing true initial).0).pairing_task ≡ none
    × (agent_started (open_pairing true initial).0).published_pairing ≡ false
opened_for_good_example = opened_for_good true initial refl refl

map_transport_volume_bounds_example :
    (map_transport_volume 0 20 80 ≡ 0)
    × (20 ≤ map_transport_volume 64 20 80)
    × (map_transport_volume 64 20 80 ≤ 80)
map_transport_volume_bounds_example = map_transport_volume_bounds 63 20 80 (omega arith)

-- A volume that has not changed is not passed on.
repeated_test :
    (refresh_transport_volume 20 80
      (none ∷ some 127 ∷ [])
      (refresh_transport_volume 20 80 (some 127 ∷ []) initial).0).1
    ≡ none
unfolding refresh_transport_volume first_volume
repeated_test = refl

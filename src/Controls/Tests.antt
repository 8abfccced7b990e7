-- ===== src/Controls/Tests.antt =====
-- Tests of src/phono_console/controls.py, and the properties at a concrete queue.
use phono_console.Base.{◌≡◌, refl, [], ◌∷◌, arith, pos, negsuc, ◌+ℤ◌}
use phono_console.Controls.{
  turn, press, HardwareControls, enqueue_all, serve, next_event, handle, handle_turn, drain, times,
  turn_action, press_action, is_zero,
}
use phono_console.Controls.Serving.{Served, serve-Served}

-- Two detents, a press and one detent back wait, with a step of 5.
abbrev waiting : HardwareControls
waiting = record {
  volume_step = 5;
  queue = turn (pos 2) ∷ press ∷ turn (negsuc 0) ∷ [];
  pending = [];
}

serve_test : (serve 3 waiting).1 ≡ turn_action (pos 5) ∷ press_action ∷ []
unfolding serve next_event handle handle_turn drain times is_zero enqueue_all ◌+ℤ◌
serve_test = refl

serve-Served_example : Served waiting (serve 3 waiting)
serve-Served_example = serve-Served 3 waiting (omega arith)

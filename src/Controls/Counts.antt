-- ===== src/Controls/Counts.antt =====
-- The bound of the event queue of `HardwareControls` (src/phono_console/controls.py), and what its
-- events and calls count for.
use phono_console.Base.{
  ℕ, zero, suc, ◌+◌, ◌-◌, ◌≤◌, ◌≡◌, refl, ◌∙◌, List, [], ◌∷◌, ◌++◌, arith, length, length-append, ℤ,
  pos, ◌+ℤ◌, int_laws,
}
use phono_console.Controls.{
  ControlEvent, turn, press, HardwareControls, max_queue, drop_oldest, enqueue, enqueue_all, Call,
  turn_action, press_action, times, drain,
}

-- The turns and the presses of a list of events.
unfoldable pub turns : List ControlEvent → ℤ
turns [] = pos 0
turns (turn d ∷ es) = d +ℤ turns es
turns (press ∷ es) = turns es

unfoldable pub presses : List ControlEvent → ℕ
presses [] = 0
presses (turn d ∷ es) = presses es
presses (press ∷ es) = suc (presses es)

-- What the actions were called with, in total.
unfoldable pub turned : List Call → ℤ
turned [] = pos 0
turned (turn_action d ∷ cs) = d +ℤ turned cs
turned (press_action ∷ cs) = turned cs

unfoldable pub pressed : List Call → ℕ
pressed [] = 0
pressed (turn_action d ∷ cs) = pressed cs
pressed (press_action ∷ cs) = suc (pressed cs)

pub times-+ℤ : (a b : ℤ) (n : ℕ) → times (a +ℤ b) n ≡ times a n +ℤ times b n
unfolding times
times-+ℤ a b zero = omega int_laws
times-+ℤ a b (suc n) = rw (times-+ℤ a b n) (omega int_laws)

length-drop_oldest : (q : List ControlEvent) → length (drop_oldest q) ≡ length q - 1
length-drop_oldest [] = omega arith
length-drop_oldest (x ∷ xs) = omega arith

enqueue_fits :
    (e : ControlEvent) (c : HardwareControls)
    → length c.queue ≤ max_queue
    → length (enqueue e c).queue ≤ max_queue
unfolding enqueue
enqueue_fits e c h = ground (
  arith,
  length-append c.queue (e ∷ []),
  length-append (drop_oldest c.queue) (e ∷ []),
  length-drop_oldest c.queue,
)

-- A queue of at most 128 events holds at most 128 after any events that the encoder sends.
pub enqueue_all-fits :
    (es : List ControlEvent) (c : HardwareControls)
    → length c.queue ≤ max_queue
    → length (enqueue_all es c).queue ≤ max_queue
unfolding enqueue_all
enqueue_all-fits [] c h = h
enqueue_all-fits (e ∷ es) c h = enqueue_all-fits es (enqueue e c) (enqueue_fits e c h)

pub presses-append : (xs ys : List ControlEvent) → presses (xs ++ ys) ≡ presses xs + presses ys
unfolding presses
presses-append [] ys = omega arith
presses-append (turn d ∷ xs) ys = presses-append xs ys
presses-append (press ∷ xs) ys = omega (arith, presses-append xs ys)

turns-append_press : (xs : List ControlEvent) → turns (xs ++ (press ∷ [])) ≡ turns xs
unfolding turns
turns-append_press [] = refl
turns-append_press (turn d ∷ xs) = rw (turns-append_press xs)
turns-append_press (press ∷ xs) = turns-append_press xs

-- Draining sums the turns and keeps the presses behind what was pending.
pub drain-conserves :
    (es : List ControlEvent) (delta : ℤ) (pending : List ControlEvent)
    → ((drain es delta pending).0 ≡ delta +ℤ turns es)
      × (presses (drain es delta pending).1 ≡ presses pending + presses es)
      × (turns (drain es delta pending).1 ≡ turns pending)
      × (length (drain es delta pending).1 ≤ length pending + length es)
unfolding drain turns presses
drain-conserves [] delta pending = (omega int_laws, omega arith, refl, omega arith)
drain-conserves (turn d ∷ es) delta pending =
    let (a, b, c, l) = drain-conserves es (delta +ℤ d) pending in
    (a ∙ omega int_laws, b, c, omega arith)
drain-conserves (press ∷ es) delta pending =
    let (a, b, c, l) = drain-conserves es delta (pending ++ (press ∷ [])) in
    (
      a,
      omega (arith, b, presses-append pending (press ∷ [])),
      c ∙ turns-append_press pending,
      omega (arith, l, length-append pending (press ∷ [])),
    )

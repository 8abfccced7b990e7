-- ===== src/Controls/Serving.antt =====
-- What the loop of `HardwareControls.run` (src/phono_console/controls.py) does with the events.
use phono_console.Base.{
  ℕ, zero, suc, ◌+◌, ◌≤◌, ◌≡◌, refl, sym, ap, ◌∙◌, subst, ◌⊎◌, inl, inr, Option, none, some, List,
  [], ◌∷◌, ◌++◌, arith, if◌then◌else◌, length, ℤ, pos, negsuc, ◌+ℤ◌, int_laws,
}
use phono_console.Controls.{
  ControlEvent, turn, press, HardwareControls, enqueue_all, next_event, Call, turn_action,
  press_action, times, is_zero, drain, handle_turn, handle, serve,
}
use phono_console.Controls.Counts.{turns, presses, turned, pressed, times-+ℤ, drain-conserves}

unfoldable pub delta_of : ControlEvent → ℤ
delta_of (turn d) = d
delta_of press = pos 0

press_of : ControlEvent → ℕ
press_of (turn d) = 0
press_of press = 1

-- What is still to be handled.
abbrev pub size : HardwareControls → ℕ
size c = length c.pending + length c.queue

abbrev pub turns_left : HardwareControls → ℤ
turns_left c = turns c.pending +ℤ turns c.queue

abbrev pub presses_left : HardwareControls → ℕ
presses_left c = presses c.pending + presses c.queue

-- The event `e` was taken from `c`, and `c'` is left.
record Taken (c : HardwareControls) (e : ControlEvent) (c' : HardwareControls) : Type 0 where
  smaller : size c ≡ suc (size c')
  turns_split : turns_left c ≡ delta_of e +ℤ turns_left c'
  presses_split : presses_left c ≡ press_of e + presses_left c'
  step_kept : c'.volume_step ≡ c.volume_step

module _ (step : ℕ) where
  abbrev of_lists : List ControlEvent → List ControlEvent → HardwareControls
  of_lists queue pending = record { volume_step = step; queue = queue; pending = pending }

  next_event-Taken :
      (queue pending : List ControlEvent)
      → ((next_event (of_lists queue pending) ≡ (of_lists queue pending, none))
          × (queue ≡ [])
          × (pending ≡ []))
        ⊎ ((e : ControlEvent) × (c' : HardwareControls) × (next_event (of_lists queue pending)
              ≡ (c', some e))
            × Taken (of_lists queue pending) e c')
  unfolding next_event turns presses delta_of press_of
  next_event-Taken [] [] = inl (refl, refl, refl)
  next_event-Taken (turn d ∷ queue) [] = inr (
    turn d,
    of_lists queue [],
    refl,
    record {
      smaller = omega arith;
      turns_split = omega int_laws;
      presses_split = omega arith;
      step_kept = refl;
    },
  )
  next_event-Taken (press ∷ queue) [] = inr (
    press,
    of_lists queue [],
    refl,
    record {
      smaller = omega arith;
      turns_split = omega int_laws;
      presses_split = omega arith;
      step_kept = refl;
    },
  )
  next_event-Taken queue (turn d ∷ pending) = inr (
    turn d,
    of_lists queue pending,
    refl,
    record {
      smaller = omega arith;
      turns_split = omega int_laws;
      presses_split = omega arith;
      step_kept = refl;
    },
  )
  next_event-Taken queue (press ∷ pending) = inr (
    press,
    of_lists queue pending,
    refl,
    record {
      smaller = omega arith;
      turns_split = omega int_laws;
      presses_split = omega arith;
      step_kept = refl;
    },
  )

-- One handled event accounts for itself and for all that it drained.
record Handled (c : HardwareControls) (e : ControlEvent) (r : HardwareControls × List Call)
    : Type 0 where
  no_growth : size r.0 ≤ size c
  all_turned :
      turned r.1 +ℤ times (turns_left r.0) c.volume_step
      ≡ times (delta_of e +ℤ turns_left c) c.volume_step
  all_pressed : pressed r.1 + presses_left r.0 ≡ press_of e + presses_left c
  step_same : r.0.volume_step ≡ c.volume_step

zero-+ℤ : (a : ℤ) → pos 0 +ℤ a ≡ a
zero-+ℤ a = omega int_laws

+ℤ-zero : (a : ℤ) → a +ℤ pos 0 ≡ a
+ℤ-zero a = omega int_laws

pub calls_of : ℤ → List Call
calls_of scaled = if is_zero scaled then [] else turn_action scaled ∷ []

turned-calls_of : (z : ℤ) → turned (calls_of z) ≡ z
unfolding turned calls_of is_zero
turned-calls_of (pos zero) = refl
turned-calls_of (pos (suc n)) = +ℤ-zero (pos (suc n))
turned-calls_of (negsuc n) = +ℤ-zero (negsuc n)

pressed-calls_of : (z : ℤ) → pressed (calls_of z) ≡ 0
unfolding pressed calls_of
pressed-calls_of z = ground arith

account :
    (n : ℕ) (d delta tp tq tk call : ℤ)
    → delta ≡ d +ℤ tq
    → tk ≡ tp
    → call ≡ times delta n
    → call +ℤ times (tk +ℤ pos 0) n ≡ times (d +ℤ (tp +ℤ tq)) n
account n d delta tp tq tk call a b e =
    let whole : d +ℤ (tp +ℤ tq) ≡ delta +ℤ tk = rw (a, b) (omega int_laws) in
    rw (e, +ℤ-zero tk, whole) (sym (times-+ℤ delta tk n))

handle_turn-Handled : (d : ℤ) (c : HardwareControls) → Handled c (turn d) (handle_turn d [] c)
unfolding handle_turn enqueue_all turns presses delta_of press_of calls_of
handle_turn-Handled d c =
    let (sum, kept, same, short) = drain-conserves c.queue d c.pending in
    let scaled : ℤ = times (drain c.queue d c.pending).0 c.volume_step in
    record {
      no_growth = omega (arith, short);
      all_turned =
          account c.volume_step d _ (turns c.pending) (turns c.queue) _ _ sum same
            (turned-calls_of scaled);
      all_pressed = omega (arith, kept, pressed-calls_of scaled);
      step_same = refl;
    }

handle-Handled : (e : ControlEvent) (c : HardwareControls) → Handled c e (handle [] e c)
unfolding handle enqueue_all turned pressed delta_of press_of
handle-Handled press c = record {
  no_growth = omega arith;
  all_turned = zero-+ℤ _ ∙ ap (λ (z : ℤ). times z c.volume_step) (sym (zero-+ℤ (turns_left c)));
  all_pressed = omega arith;
  step_same = refl;
}
handle-Handled (turn d) c = handle_turn-Handled d c

turned-append : (xs ys : List Call) → turned (xs ++ ys) ≡ turned xs +ℤ turned ys
unfolding turned
turned-append [] ys = sym (zero-+ℤ (turned ys))
turned-append (turn_action d ∷ xs) ys = rw (turned-append xs ys) (omega int_laws)
turned-append (press_action ∷ xs) ys = turned-append xs ys

pressed-append : (xs ys : List Call) → pressed (xs ++ ys) ≡ pressed xs + pressed ys
unfolding pressed
pressed-append [] ys = omega arith
pressed-append (turn_action d ∷ xs) ys = pressed-append xs ys
pressed-append (press_action ∷ xs) ys = omega (arith, pressed-append xs ys)

-- `r` is what serving `c` gives: nothing is left waiting, the calls of the volume action add up to
-- the detents of all the waiting turns times the step, and the button action was called once for
-- each waiting press.
pub record Served (c : HardwareControls) (r : HardwareControls × List Call) : Type 0 where
  pub queue_empty : r.0.queue ≡ []
  pub pending_empty : r.0.pending ≡ []
  pub volume : turned r.1 ≡ times (turns_left c) c.volume_step
  pub buttons : pressed r.1 ≡ presses_left c

combine :
    (c c' c'' final : HardwareControls) (e : ControlEvent) (calls more : List Call)
    → Taken c e c'
    → Handled c' e (c'', calls)
    → Served c'' (final, more)
    → Served c (final, calls ++ more)
combine c c' c'' final e calls more t h s = record {
  queue_empty = s.queue_empty;
  pending_empty = s.pending_empty;
  volume =
      let tail : turned more ≡ times (turns_left c'') c'.volume_step =
        s.volume ∙ ap (λ (n : ℕ). times (turns_left c'') n) h.step_same in
      rw (turned-append calls more, tail, t.turns_split)
        (h.all_turned ∙ ap (λ (n : ℕ). times (delta_of e +ℤ turns_left c') n) t.step_kept);
  buttons = omega (arith, pressed-append calls more, s.buttons, h.all_pressed, t.presses_split);
}

serve_stop :
    (fuel : ℕ) (c : HardwareControls) → next_event c ≡ (c, none) → serve (suc fuel) c ≡ (c, [])
unfolding serve
serve_stop fuel c e =
    rw (serve, e) (ap (λ (r : HardwareControls × Option ControlEvent). (r.0, [])) e)

serve_step :
    (fuel : ℕ) (c c' : HardwareControls) (e : ControlEvent)
    → next_event c ≡ (c', some e)
    → serve (suc fuel) c
      ≡ ((serve fuel (handle [] e c').0).0, (handle [] e c').1 ++ (serve fuel (handle [] e c').0).1)
unfolding serve
serve_step fuel c c' e h =
    rw (serve, h)
      (ap
        (λ (r : HardwareControls × Option ControlEvent). (
          (serve fuel (handle [] e r.0).0).0,
          (handle [] e r.0).1 ++ (serve fuel (handle [] e r.0).0).1,
        ))
        h)

times_zero : (n : ℕ) → times (pos 0) n ≡ pos 0
unfolding times
times_zero zero = refl
times_zero (suc n) = rw (times_zero n) (zero-+ℤ (pos 0))

zero_times : (n : ℕ) → times (turns [] +ℤ turns []) n ≡ pos 0
unfolding turns
zero_times n = ap (λ (z : ℤ). times z n) (zero-+ℤ (pos 0)) ∙ times_zero n

nothing_left : {A : Type 0} (xs ys : List A) → length xs + length ys ≤ 0 → (xs ≡ []) × (ys ≡ [])
nothing_left [] [] h = (refl, refl)
nothing_left (x ∷ xs) ys h = absurd (omega arith)
nothing_left xs (y ∷ ys) h = absurd (omega arith)

Served-nil : (c : HardwareControls) → c.queue ≡ [] → c.pending ≡ [] → Served c (c, [])
unfolding turns presses turned pressed
Served-nil c q p = record {
  queue_empty = q;
  pending_empty = p;
  volume = rw (q, p) (sym (zero_times c.volume_step));
  buttons = rw (q, p) refl;
}

-- With an event of fuel for each that waits and no further arrivals, the loop of `run` leaves nothing
-- waiting, the calls of the volume action add up to the detents of all the waiting turns times the
-- volume step, and the button action is called once for each waiting press.
pub serve-Served : (fuel : ℕ) (c : HardwareControls) → size c ≤ fuel → Served c (serve fuel c)
unfolding serve
serve-Served zero c h =
    let (p, q) = nothing_left c.pending c.queue (omega arith) in Served-nil c q p
serve-Served (suc fuel) c h = elim (next_event-Taken c.volume_step c.queue c.pending) [
  | inl (e, q, p) ↦ subst (Served c) (sym (serve_stop fuel c e)) (Served-nil c q p)
  | inr (ev, c', e, t) ↦
      let (c'', calls) = handle [] ev c' in
      subst (Served c) (sym (serve_step fuel c c' ev e)) (
        combine c c' c'' _ ev calls _ t (handle-Handled ev c')
          (serve-Served fuel c'' (omega (arith, t.smaller, (handle-Handled ev c').no_growth))))
]

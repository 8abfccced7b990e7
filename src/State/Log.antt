-- ===== src/State/Log.antt =====
-- The event log of `StateStore` (src/phono_console/state.py): a deque of bounded length.
use phono_console.Base.{
  ℕ, zero, suc, ◌-◌, ◌≤◌, ◌<◌, ◌≡◌, refl, ap, ◌∙◌, inl, inr, false, List, [], ◌∷◌, ◌++◌, arith, leb,
  leb→le, Bool-cases, length, length-append, take_last, take_last-append,
}
use mathlib.Core.List.{append-nil, append_assoc}
use phono_console.State.{RecordedEvent, append_event}

not_leb : (a b : ℕ) → leb a b ≡ false → b < a
not_leb a b h = ground arith

module _ {D : Type 0} where
  pub append_all : ℕ → List (RecordedEvent D) → List (RecordedEvent D) → List (RecordedEvent D)
  append_all n events [] = events
  append_all n events (e ∷ es) = append_all n (append_event n events e) es

  -- Once the log is within its bound, appending keeps the last entries that fit.
  append_event-take_last :
      (n : ℕ) (events : List (RecordedEvent D)) (e : RecordedEvent D)
      → length events ≤ n
      → append_event n events e ≡ take_last n (events ++ (e ∷ []))
  unfolding append_event
  append_event-take_last zero [] e h = refl
  append_event-take_last zero (x ∷ xs) e h = absurd (omega arith)
  append_event-take_last (suc n) [] e h = ground arith
  append_event-take_last (suc n) (x ∷ xs) e h = elim (Bool-cases (leb (suc n) (suc (length xs)))) [
    | inl full ↦
        let one : suc (length (xs ++ (e ∷ []))) - suc n ≡ 1 =
          omega (arith, length-append xs (e ∷ []), leb→le (suc n) (suc (length xs)) full) in
        rw (full, one) refl
    | inr room ↦
        let zero_left : suc (length (xs ++ (e ∷ []))) - suc n ≡ 0 =
          omega (arith, length-append xs (e ∷ []), not_leb (suc n) (suc (length xs)) room) in
        rw (room, zero_left) refl
  ]

  pub length-append_event :
      (n : ℕ) (events : List (RecordedEvent D)) (e : RecordedEvent D)
      → length events ≤ n
      → length (append_event n events e) ≤ n
  unfolding append_event
  length-append_event zero events e h = omega arith
  length-append_event (suc n) [] e h = ground arith
  length-append_event (suc n) (x ∷ xs) e h =
      ground (arith, length-append xs (e ∷ []), length-append (x ∷ xs) (e ∷ []))

  -- Whatever is appended, the log holds the last `max_events` of what it held and what was
  -- appended, in order, if it was within that bound.
  pub append_all-take_last :
      (n : ℕ) (events es : List (RecordedEvent D))
      → length events ≤ n
      → append_all n events es ≡ take_last n (events ++ es)
  unfolding append_all
  append_all-take_last n events [] h =
      let all : length events - n ≡ 0 = omega arith in rw (append-nil, all)
  append_all-take_last n events (e ∷ es) h =
      let later =
        append_all-take_last n (append_event n events e) es (length-append_event n events e h) in
      let early = take_last-append n (events ++ (e ∷ [])) es in
      later
      ∙ (ap (λ (q : List (RecordedEvent D)). take_last n (q ++ es))
            (append_event-take_last n events e h)
          ∙ rw append_assoc at early)

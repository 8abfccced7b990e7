-- ===== src/Amplifier/Power/Polls.antt =====
-- `CecAmplifier.power_on` (src/phono_console/amplifier.py): its polling ends.
use phono_console.Base.{
  ℕ, zero, suc, ◌+◌, ◌*◌, ◌≡◌, refl, ap, subst, ◌≢◌, inl, inr, Bool, true, false, not, ◌&&◌, ◌||◌,
  Option, none, some, [], ◌∷◌, arith, leb, ◌==◌, if◌then◌else◌, Bool-cases, Option-cases, length,
}
use phono_console.Amplifier.{AmplifierConfig}
use phono_console.Amplifier.Power.{
  polls, outcome, active_source, audio_mode, Reply, Polled, settled, raised, poll, power_on,
  PowerOn, skipped, invalidated, woken,
}

-- The number of polls, and whether the loop ended for a reason: a status of 0, or the deadline.
unfoldable pub fits : ℕ → ℕ → Polled → Bool
fits limit deadline (settled status sent now) =
    leb sent limit && ((status == 0) || leb deadline now)
fits limit deadline (raised sent) = leb sent limit

-- The loop has ended within its fuel, and so.
unfoldable pub ends : ℕ → ℕ → Option Polled → Bool
unfolding fits
ends limit deadline none = false
ends limit deadline (some p) = fits limit deadline p

later :
    (fuel deadline status s now elapsed : ℕ)
    → (status == 0) || leb deadline (now + 250 * suc fuel) ≡ true
    → (status == 0) || leb deadline now ≡ false
    → (s == 0) || leb deadline (now + elapsed + (if s == 0 then 0 else 250) + 250 * fuel) ≡ true
later fuel deadline status s now elapsed h e = elim (Bool-cases (s == 0)) [
  | inl z ↦ rw z refl
  | inr z ↦ rw z (ground arith)
]

-- Enough fuel: every poll that does not end the loop takes a quarter of a second.
poll-ends :
    (fuel : ℕ) (world : ℕ → Reply) (deadline sent status now : ℕ)
    → (status == 0) || leb deadline (now + 250 * fuel) ≡ true
    → ends (sent + fuel) deadline (poll (suc fuel) world deadline sent status now) ≡ true
unfolding ends poll fits
poll-ends zero world deadline sent status now h =
    let over : (status == 0) || leb deadline now ≡ true = ground arith in
    rw (poll, over) (ground arith)
poll-ends (suc fuel) world deadline sent status now h =
    elim (Bool-cases ((status == 0) || leb deadline now)) [
      | inl e ↦ rw (poll, e) (ground arith)
      | inr e ↦ elim (Option-cases (world sent).status) [
        | inl n ↦ rw (poll, e, n) (ground arith)
        | inr (s, n) ↦
            let pause = if s == 0 then 0 else 250 in
            let next = now + (world sent).elapsed + pause in
            let limit : sent + 1 + fuel ≡ sent + suc fuel = omega arith in
            let rest =
              poll-ends fuel world deadline (sent + 1) s next
                (later fuel deadline status s now (world sent).elapsed h e) in
            rw (poll, e, n)
              (subst
                (λ l. ends l deadline (poll (suc fuel) world deadline (sent + 1) s next) ≡ true)
                limit rest)
      ]
    ]

-- However slow the receiver is, and whatever it answers, the loop ends after at most 32 polls: the
-- receiver is on, or eight seconds are over, or a poll has raised.
pub poll_halts :
    (world : ℕ → Reply) (now : ℕ) → ends 32 (now + 8000) (poll 33 world (now + 8000) 0 1 now) ≡ true
poll_halts world now = poll-ends 32 world (now + 8000) 0 1 now (ground arith)

-- The commands of a wake-up are at most this many.
unfoldable pub sends_within : ℕ → Option PowerOn → Bool
sends_within limit none = false
sends_within limit (some skipped) = true
sends_within limit (some (invalidated sent)) = leb (length sent) limit
sends_within limit (some (woken sent on settle)) = leb (length sent) limit

length-polls : (n : ℕ) → length (polls n) ≡ n
unfolding polls
length-polls zero = refl
length-polls (suc n) = ap suc (length-polls n)

outcome-sends_within :
    (settle high low deadline : ℕ) (p : Polled)
    → fits 32 deadline p ≡ true
    → sends_within 34 (some (outcome settle (active_source high low ∷ audio_mode high low ∷ []) p))
      ≡ true
unfolding sends_within outcome fits
outcome-sends_within settle high low deadline (settled status n now) h =
    rw (length-polls n) (ground arith)
outcome-sends_within settle high low deadline (raised n) h = rw (length-polls n) (ground arith)

-- `power_on` comes to an end whatever the receiver answers and however slow it is: its loop stays
-- within its fuel, and it sends at most 34 commands.
pub power_on-ends :
    (c : AmplifierConfig) (wake : Bool) (settle high low : ℕ) (world : ℕ → Reply) (now : ℕ)
    → sends_within 34 (power_on c wake settle high low world now) ≡ true
unfolding power_on sends_within ends
power_on-ends c wake settle high low world now = elim (Bool-cases (not c.enabled || not wake)) [
  | inl e ↦ rw (power_on, e) refl
  | inr e ↦ elim (Option-cases (poll 33 world (now + 8000) 0 1 now)) [
    | inl n ↦
        absurd (false≢true (subst (λ r. ends 32 (now + 8000) r ≡ true) n (poll_halts world now)))
    | inr (p, n) ↦
        rw (power_on, e, n)
          (outcome-sends_within settle high low (now + 8000) p
            (subst (λ r. ends 32 (now + 8000) r ≡ true) n (poll_halts world now)))
  ]
]
  where
    false≢true : false ≢ true
    false≢true h = ground arith

-- ===== src/Amplifier/Power.antt =====
-- src/phono_console/amplifier.py: `CecAmplifier.power_on`, which wakes the receiver and polls its power
-- status.
--
-- Times are naturals in milliseconds of the loop's clock. The receiver is outside: `Reply` is how one
-- poll goes, by its number.
pub mod Polls
use phono_console.Base.{
  ℕ, zero, suc, ◌+◌, ◌-◌, ◌*◌, ◌/◌, ◌%◌, ◌^◌, ◌≤◌, ◌<◌, String, ◌≡◌, refl, sym, ap, ◌∙◌, subst, ◌≢◌,
  ◌↔◌, ◌⊎◌, inl, inr, Bool, true, false, not, ◌&&◌, ◌||◌, Option, none, some, List, [], ◌∷◌, ◌++◌,
  map, arith, ltb, leb, ◌==◌, if◌then◌else◌, leb→le, ==_iff, Bool-cases, Option-cases, is_some,
  length, take, drop, length-append, length-drop, All, All-append, take-append, drop-append,
  take-append-drop, length-take, take-add, take_last, drop-append_le, drop-drop, take_last-append,
  All-take, All-drop, ℤ, pos, negsuc, pos_part, neg_part, sub_ℕ, ◌+ℤ◌, ◌-ℤ◌, ◌≤ℤ◌, leb_ℤ, ltb_ℤ,
  +ℤ_parts, -ℤ_parts, eq_of_parts, int_laws,
}
use phono_console.Amplifier.{AmplifierConfig}

pub record Reply : Type 0 where
  -- How long the reply takes; at most two seconds.
  pub elapsed : ℕ
  -- The status that it reports; `none` is an exception, the time limit included.
  pub status : Option ℕ

-- How the loop ends: the last status, the number of polls and the time; or an exception in a poll.
pub data Polled : Type 0 where
  settled : ℕ → ℕ → ℕ → Polled
  raised : ℕ → Polled

-- The loop, after `sent` polls. The fuel is the number of rounds that may be tested.
unfoldable pub poll : ℕ → (ℕ → Reply) → ℕ → ℕ → ℕ → ℕ → Option Polled
poll zero world deadline sent status now = none
poll (suc fuel) world deadline sent status now = elim ((status == 0) || leb deadline now) [
  | true ↦ some (settled status sent now)
  | false ↦ elim (world sent).status [
    | none ↦ some (raised (sent + 1))
    | some s ↦
        let pause = if s == 0 then 0 else 250 in
        poll fuel world deadline (sent + 1) s (now + (world sent).elapsed + pause)
  ]
]

pub data Command : Type 0 where
  -- The opcodes 82 and 70, both with the physical address, and 8f.
  active_source audio_mode : ℕ → ℕ → Command
  give_power_status : Command

pub data PowerOn : Type 0 where
  skipped : PowerOn
  -- A command raised: the session is invalidated.
  invalidated : List Command → PowerOn
  -- The commands, whether the receiver is on, and the time that is waited for it to settle.
  woken : List Command → Bool → ℕ → PowerOn

unfoldable pub polls : ℕ → List Command
polls zero = []
polls (suc n) = give_power_status ∷ polls n

unfoldable pub outcome : ℕ → List Command → Polled → PowerOn
unfolding polls
outcome settle sent (settled status n now) =
    woken (sent ++ polls n) (status == 0) (if status == 0 then settle else 0)
outcome settle sent (raised n) = invalidated (sent ++ polls n)

-- `power_on`, once its client is open and its first two commands are sent, from the time when its loop
-- starts; `settle` is `wake_settle_seconds`. The fuel is 33,
-- since a round takes at least 250 of the 8000 milliseconds.
unfoldable pub power_on : AmplifierConfig → Bool → ℕ → ℕ → ℕ → (ℕ → Reply) → ℕ → Option PowerOn
unfolding poll outcome
power_on c wake_on_audio settle high low world now =
    if not c.enabled || not wake_on_audio
    then some skipped
    else elim (poll 33 world (now + 8000) 0 1 now) [
      | none ↦ none
      | some p ↦ some (outcome settle (active_source high low ∷ audio_mode high low ∷ []) p)
    ]

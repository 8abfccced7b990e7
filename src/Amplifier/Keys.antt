-- ===== src/Amplifier/Keys.antt =====
-- The key presses of `CecAmplifier.set_volume` (src/phono_console/amplifier.py).
use phono_console.Base.{
  ℕ, zero, suc, ◌+◌, ◌-◌, ◌<◌, ◌≡◌, refl, ◌⊎◌, Bool, true, false, List, [], ◌∷◌, ◌++◌, arith,
  if◌then◌else◌, pos,
}
use phono_console.Amplifier.{
  level_keys, AmplifierConfig, Key, up, down, mute, Command, press, presses, toggle_mute, adjust,
  is_muted, level_of, logical_to_cec,
}

abbrev pub is_press : Key → Command → Bool
is_press up (press up) = true
is_press down (press down) = true
is_press mute (press mute) = true
is_press _ _ = false

-- How often a key is pressed.
pub count : Key → List Command → ℕ
count k [] = 0
count k (m ∷ ms) = (if is_press k m then 1 else 0) + count k ms

count-append : (k : Key) (xs ys : List Command) → count k (xs ++ ys) ≡ count k xs + count k ys
unfolding count
count-append k [] ys = omega arith
count-append k (x ∷ xs) ys = omega (arith, count-append k xs ys)

count-presses_up :
    (n : ℕ)
    → (count up (presses n up) ≡ n)
      × (count down (presses n up) ≡ 0)
      × (count mute (presses n up) ≡ 0)
unfolding count presses
count-presses_up zero = (refl, refl, refl)
count-presses_up (suc n) = omega (arith, count-presses_up n)

count-presses_down :
    (n : ℕ)
    → (count up (presses n down) ≡ 0)
      × (count down (presses n down) ≡ n)
      × (count mute (presses n down) ≡ 0)
unfolding count presses
count-presses_down zero = (refl, refl, refl)
count-presses_down (suc n) = omega (arith, count-presses_down n)

level_keys_net :
    (current target : ℕ)
    → let sent = level_keys current target in
      (current + count up sent ≡ target + count down sent)
      × ((count up sent ≡ 0) ⊎ (count down sent ≡ 0))
      × (count mute sent ≡ 0)
unfolding level_keys
level_keys_net current target =
    ground (arith, count-presses_up (target - current), count-presses_down (current - target))

mute_prefix : ℕ → List Command
mute_prefix status = if is_muted status then toggle_mute else []

count-mute_prefix :
    (status : ℕ)
    → (count up (mute_prefix status) ≡ 0)
      × (count down (mute_prefix status) ≡ 0)
      × (count mute (mute_prefix status) ≡ (if is_muted status then 1 else 0))
unfolding mute_prefix count
count-mute_prefix status = ground arith

adjust_parts :
    (c : AmplifierConfig) (requested status : ℕ)
    → 0 < requested
    → adjust c requested status
      ≡ mute_prefix status ++ level_keys (level_of status) (logical_to_cec c (pos requested))
unfolding adjust mute_prefix
adjust_parts c requested status h = ground arith

joined :
    (pre keys : List Command) (n m p : ℕ)
    → (count up pre ≡ 0) × (count down pre ≡ 0) × (count mute pre ≡ p)
    → (n + count up keys ≡ m + count down keys)
      × ((count up keys ≡ 0) ⊎ (count down keys ≡ 0))
      × (count mute keys ≡ 0)
    → (n + count up (pre ++ keys) ≡ m + count down (pre ++ keys))
      × ((count up (pre ++ keys) ≡ 0) ⊎ (count down (pre ++ keys) ≡ 0))
      × (count mute (pre ++ keys) ≡ p)
joined pre keys n m p a b =
    ground (arith, count-append up pre keys, count-append down pre keys, count-append mute pre keys)

-- For a requested volume above zero the presses lead from the reported level exactly to the wanted
-- one, in one direction only, and mute is toggled exactly once if the receiver was muted and never
-- otherwise.
pub adjust_level :
    (c : AmplifierConfig) (requested status : ℕ)
    → 0 < requested
    → let sent = adjust c requested status in
      (level_of status + count up sent ≡ logical_to_cec c (pos requested) + count down sent)
      × ((count up sent ≡ 0) ⊎ (count down sent ≡ 0))
      × (count mute sent ≡ (if is_muted status then 1 else 0))
adjust_level c requested status h =
    let keys : List Command = level_keys (level_of status) (logical_to_cec c (pos requested)) in
    rw (adjust_parts c requested status h) (
      joined (mute_prefix status) keys _ _ _ (count-mute_prefix status)
        (level_keys_net (level_of status) (logical_to_cec c (pos requested))))

-- At volume zero no level key is pressed, and mute is toggled exactly if it was off.
pub adjust_zero :
    (c : AmplifierConfig) (status : ℕ)
    → let sent = adjust c 0 status in
      (count up sent ≡ 0)
      × (count down sent ≡ 0)
      × (count mute sent ≡ (if is_muted status then 0 else 1))
unfolding adjust count
adjust_zero c status = ground arith

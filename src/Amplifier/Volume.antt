-- ===== src/Amplifier/Volume.antt =====
-- The two volume scales (src/phono_console/amplifier.py): range, order and round trip.
use native.Mathlib.Nat.{div-add-mod, mod-lt}
use native.Mathlib.Decide.{dec_lt}
use phono_console.Base.{
  ℕ, zero, suc, ◌+◌, ◌-◌, ◌*◌, ◌/◌, ◌%◌, ◌≤◌, ◌<◌, ◌≡◌, inl, inr, arith, ltb, Bool-cases, ℤ, pos,
  ◌≤ℤ◌,
}
use phono_console.Amplifier.{
  AmplifierConfig, round_div, clamp, span, logical_to_cec, cec_to_logical,
}

-- The rounded quotient is at most half a divisor away.
pub record IsNearest (a b r : ℕ) : Type 0 where
  pub above : 2 * (b * r) ≤ 2 * a + b
  pub below : 2 * a ≤ 2 * (b * r) + b

near_low : (a b q r : ℕ) → b * q + r ≡ a → 2 * r ≤ b → IsNearest a b q
near_low a b q r e h = omega arith

near_high : (a b q r : ℕ) → b * q + r ≡ a → r < b → b ≤ 2 * r → IsNearest a b (q + 1)
near_high a b q r e l h = omega arith

near_tie : (a b q r p : ℕ) → b * q + r ≡ a → 2 * r ≡ b → p ≤ 1 → IsNearest a b (q + p)
near_tie a b q r zero e h l = omega arith
near_tie a b q r (suc zero) e h l = omega arith
near_tie a b q r (suc (suc p)) e h l = absurd (omega arith)

pub round_div-IsNearest : (a b : ℕ) → 0 < b → IsNearest a b (round_div a b)
unfolding round_div
round_div-IsNearest a b h =
    let parts = div-add-mod a b in
    let small = mod-lt a h in
    elim (Bool-cases (ltb (2 * (a % b)) b)) [
      | inl low ↦ rw low (near_low a b (a / b) (a % b) parts (ground arith))
      | inr not_low ↦ elim (Bool-cases (ltb b (2 * (a % b)))) [
        | inl high ↦ rw (not_low, high) (near_high a b (a / b) (a % b) parts small (ground arith))
        | inr tie ↦
            rw (not_low, tie)
              (near_tie a b (a / b) (a % b) (a / b % 2) parts (ground arith) (omega arith))
      ]
    ]

pub clamp_bounds : (lo hi : ℕ) (v : ℤ) → lo ≤ hi → (lo ≤ clamp lo hi v) × (clamp lo hi v ≤ hi)
unfolding clamp
clamp_bounds lo hi v h = ground arith

clamp_mono : (lo hi : ℕ) (v w : ℤ) → lo ≤ hi → v ≤ℤ w → clamp lo hi v ≤ clamp lo hi w
unfolding clamp
clamp_mono lo hi v w h le = ground arith

clamp_inside : (lo hi n : ℕ) → lo ≤ n → n ≤ hi → clamp lo hi (pos n) ≡ n
unfolding clamp
clamp_inside lo hi n a b = ground arith

scale_le : (k n s : ℕ) → k ≤ n → k * s ≤ n * s
scale_le k n s h = grind arith

-- Every volume, in or out of Music Assistant's range, gives a level in the configured safe range.
pub logical_to_cec_bounds :
    (c : AmplifierConfig) (v : ℤ)
    → c.volume_min ≤ c.volume_max
    → (c.volume_min ≤ logical_to_cec c v) × (logical_to_cec c v ≤ c.volume_max)
unfolding logical_to_cec
logical_to_cec_bounds c v h =
    let k : ℕ = clamp 1 100 v - 1 in
    let a : ℕ = c.volume_min * 99 + k * span c in
    let near = round_div-IsNearest a 99 (omega arith) in
    let bound = scale_le k 99 (span c) (omega (arith, clamp_bounds 1 100 v (omega arith))) in
    (omega (arith, near, bound), omega (arith, near, bound))

-- A higher volume never gives a lower level.
pub logical_to_cec_mono :
    (c : AmplifierConfig) (v w : ℤ) → v ≤ℤ w → logical_to_cec c v ≤ logical_to_cec c w
unfolding logical_to_cec
logical_to_cec_mono c v w h =
    let k : ℕ = clamp 1 100 v - 1 in
    let l : ℕ = clamp 1 100 w - 1 in
    let near = round_div-IsNearest (c.volume_min * 99 + k * span c) 99 (omega arith) in
    let near' = round_div-IsNearest (c.volume_min * 99 + l * span c) 99 (omega arith) in
    let order = scale_le k l (span c) (omega (arith, clamp_mono 1 100 v w (omega arith) h)) in
    omega (arith, near, near', order)

-- The ends of the scale are the ends of the range.
pub logical_to_cec_ends :
    (c : AmplifierConfig)
    → c.volume_min ≤ c.volume_max
    → (logical_to_cec c (pos 1) ≡ c.volume_min) × (logical_to_cec c (pos 100) ≡ c.volume_max)
unfolding logical_to_cec clamp
logical_to_cec_ends c h =
    let low = round_div-IsNearest (c.volume_min * 99 + 0 * span c) 99 (omega arith) in
    let high = round_div-IsNearest (c.volume_min * 99 + 99 * span c) 99 (omega arith) in
    (omega (arith, low), omega (arith, high))

cec_to_logical_parts :
    (c : AmplifierConfig) (n : ℕ)
    → c.volume_min < c.volume_max
    → c.volume_min ≤ n
    → n ≤ c.volume_max
    → IsNearest (span c + (n - c.volume_min) * 99) (span c) (cec_to_logical c (pos n))
unfolding cec_to_logical
cec_to_logical_parts c n h lo hi =
    rw (clamp_inside c.volume_min c.volume_max n lo hi)
      (round_div-IsNearest (span c + (n - c.volume_min) * 99) (span c) (omega arith))

near_range : (s k l : ℕ) → 0 < s → k ≤ s → IsNearest (s + k * 99) s l → (1 ≤ l) × (l ≤ 100)
near_range s k l p h near = (at_least l near, at_most l near)
  where
    at_least : (l : ℕ) → IsNearest (s + k * 99) s l → 1 ≤ l
    at_least zero near = absurd (omega (arith, near))
    at_least (suc l) near = omega arith

    at_most : (l : ℕ) → IsNearest (s + k * 99) s l → l ≤ 100
    at_most l near = elim (dec_lt 100 l) [
      | yes big ↦ absurd (omega (arith, near, scale_le 101 l s big))
      | no small ↦ omega arith
    ]

-- Any reported level, in or out of a nonempty range, gives a logical volume from 1 to 100.
pub cec_to_logical_bounds :
    (c : AmplifierConfig) (v : ℤ)
    → c.volume_min < c.volume_max
    → (1 ≤ cec_to_logical c v) × (cec_to_logical c v ≤ 100)
unfolding cec_to_logical
cec_to_logical_bounds c v h =
    let n : ℕ = clamp c.volume_min c.volume_max v in
    let inside = clamp_bounds c.volume_min c.volume_max v (omega arith) in
    near_range (span c) (n - c.volume_min) _ (omega arith) (omega (arith, inside))
      (round_div-IsNearest (span c + (n - c.volume_min) * 99) (span c) (omega arith))

settle :
    (s m n l r : ℕ)
    → 1 ≤ l
    → m ≤ n
    → s ≤ 98
    → IsNearest (s + (n - m) * 99) s l
    → IsNearest (m * 99 + (l - 1) * s) 99 r
    → r ≡ n
settle s m n zero r low order narrow there back = absurd (omega arith)
settle s m n (suc l) r low order narrow there back =
    let e : suc l - 1 ≡ l = omega arith in settle_at (rw e at back)
  where
    settle_at : IsNearest (m * 99 + l * s) 99 r → r ≡ n
    settle_at back = omega (arith, there, back)

-- A reported level inside the range survives the trip to the logical scale and back, for any
-- nonempty range of at most 98 steps.
pub logical_to_cec-cec_to_logical :
    (c : AmplifierConfig) (n : ℕ)
    → c.volume_min < c.volume_max
    → span c ≤ 98
    → c.volume_min ≤ n
    → n ≤ c.volume_max
    → logical_to_cec c (pos (cec_to_logical c (pos n))) ≡ n
unfolding logical_to_cec
logical_to_cec-cec_to_logical c n h narrow lo hi =
    let l : ℕ = cec_to_logical c (pos n) in
    let (low, high) = cec_to_logical_bounds c (pos n) h in
    let there = cec_to_logical_parts c n h lo hi in
    let same = clamp_inside 1 100 l low high in
    let back = round_div-IsNearest (c.volume_min * 99 + (l - 1) * span c) 99 (omega arith) in
    rw same (settle (span c) c.volume_min n l _ low lo narrow there back)

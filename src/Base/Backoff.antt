-- ===== src/Base/Backoff.antt =====
-- A delay that doubles up to a cap: `min(delay * 2, cap)`.
use Prim.Native.Nat.{min}
use native.Mathlib.Nat.{pow-suc}
use phono_console.Base.{
  ℕ, zero, suc, ◌*◌, ◌^◌, ◌≤◌, ◌≡◌, ◌∙◌, inl, inr, false, arith, leb, Bool-cases,
}

unfoldable pub doubled : ℕ → ℕ → ℕ
doubled limit r = min (r * 2) limit

unfoldable pub repeat_doubled : ℕ → ℕ → ℕ → ℕ
repeat_doubled limit zero r = r
repeat_doubled limit (suc k) r = repeat_doubled limit k (doubled limit r)

pow_two_pos : (k : ℕ) → 1 ≤ 2 ^ k
pow_two_pos zero = omega arith
pow_two_pos (suc k) = omega (arith, pow-suc 2 k, pow_two_pos k)

grows : (a p : ℕ) → 1 ≤ p → a ≤ a * p
grows a p h = grind arith

ground_le : (limit r : ℕ) → leb (r * 2) limit ≡ false → limit ≤ r * 2
ground_le limit r h = ground arith

scaled : (limit r p : ℕ) → 1 ≤ p → min (min (r * 2) limit * p) limit ≡ min (r * (p * 2)) limit
scaled limit r p h = elim (Bool-cases (leb (r * 2) limit)) [
  | inl e ↦ let low : min (r * 2) limit ≡ r * 2 = ground arith in rw low (omega arith)
  | inr e ↦
      let high : min (r * 2) limit ≡ limit = ground arith in
      rw high (omega (arith, grows limit p h, grows r p h, ground_le limit r e))
]

-- After k doublings the delay is the k-th power of two times the first, cut off at the cap.
pub repeat_doubled-pow :
    (limit k r : ℕ) → r ≤ limit → repeat_doubled limit k r ≡ min (r * 2 ^ k) limit
unfolding repeat_doubled doubled
repeat_doubled-pow limit zero r h = omega arith
repeat_doubled-pow limit (suc k) r h =
    repeat_doubled-pow limit k (min (r * 2) limit) (omega arith)
    ∙ (scaled limit r (2 ^ k) (pow_two_pos k) ∙ rw (pow-suc 2 k))

-- ===== src/Base/Bytes.antt =====
-- Little-endian integers of a fixed number of bytes, as Python's `struct` module writes them
-- with the format prefix "<", and two's complement.
use native.Mathlib.Nat.{pow-suc}
use phono_console.Base.{
  ℕ, zero, suc, ◌+◌, ◌-◌, ◌*◌, ◌/◌, ◌%◌, ◌^◌, ◌<◌, ◌≡◌, refl, ap, Option, none, some, List, [], ◌∷◌,
  arith, ltb, if◌then◌else◌, length, All, ℤ, pos, negsuc,
}

abbrev pub IsByte : ℕ → Type 0
IsByte b = b < 256

unfoldable pub le : ℕ → ℕ → List ℕ
le zero v = []
le (suc n) v = (v % 256) ∷ le n (v / 256)

unfoldable pub le_value : List ℕ → ℕ
le_value [] = 0
le_value (b ∷ bs) = b + 256 * le_value bs

pub length-le : (n v : ℕ) → length (le n v) ≡ n
unfolding le
length-le zero v = refl
length-le (suc n) v = ap suc (length-le n (v / 256))

pub le-IsByte : (n v : ℕ) → All IsByte (le n v)
unfolding le
le-IsByte zero v = tt
le-IsByte (suc n) v = (omega arith, le-IsByte n (v / 256))

pub le_value-le : (n v : ℕ) → v < 256 ^ n → le_value (le n v) ≡ v
unfolding le le_value
le_value-le zero v h = omega arith
le_value-le (suc n) v h =
    omega (arith, pow-suc 256 n, le_value-le n (v / 256) (omega (arith, pow-suc 256 n)))

pub le_value-lt : (bs : List ℕ) → All IsByte bs → le_value bs < 256 ^ length bs
unfolding le_value
le_value-lt [] h = omega arith
le_value-lt (b ∷ bs) h = omega (arith, h.0, pow-suc 256 (length bs), le_value-lt bs h.1)

pub le-le_value : (bs : List ℕ) → All IsByte bs → le (length bs) (le_value bs) ≡ bs
unfolding le le_value
le-le_value [] h = refl
le-le_value (b ∷ bs) h =
    let low : (b + 256 * le_value bs) % 256 ≡ b = omega (arith, h.0) in
    let high : (b + 256 * le_value bs) / 256 ≡ le_value bs = omega (arith, h.0) in
    rw (low, high, le-le_value bs h.1)

-- The two's complement pattern of a signed value in n bytes; `none` is `struct.error`.
unfoldable pub of_signed : ℕ → ℤ → Option ℕ
of_signed n (pos m) = if ltb (2 * m) (256 ^ n) then some m else none
of_signed n (negsuc m) = if ltb (2 * m) (256 ^ n) then some (256 ^ n - m - 1) else none

unfoldable pub to_signed : ℕ → ℕ → ℤ
to_signed n v = if ltb (2 * v) (256 ^ n) then pos v else negsuc (256 ^ n - v - 1)

pub of_signed-lt : (n : ℕ) (z : ℤ) {v : ℕ} → of_signed n z ≡ some v → v < 256 ^ n
unfolding of_signed
of_signed-lt n z h = ground arith

-- The modulus of n > 0 bytes is even: at a numeral n the equation is `refl`.
pub to_signed-of_signed :
    (n k : ℕ) (z : ℤ) {v : ℕ} → 256 ^ n ≡ 2 * k → of_signed n z ≡ some v → to_signed n v ≡ z
unfolding of_signed to_signed
to_signed-of_signed n k z e h = ground arith

pub of_signed-to_signed :
    (n k v : ℕ) → 256 ^ n ≡ 2 * k → v < 256 ^ n → of_signed n (to_signed n v) ≡ some v
unfolding of_signed to_signed
of_signed-to_signed n k v e h = ground arith

-- ===== src/Bluetooth/Volume.antt =====
-- The volume of the phone (src/phono_console/bluetooth.py, `map_transport_volume`).
use phono_console.Base.{
  ℕ, suc, ◌+◌, ◌-◌, ◌*◌, ◌≤◌, ◌≡◌, refl, inl, inr, false, arith, ltb, ◌==◌, Bool-cases,
}
use phono_console.Amplifier.{round_div}
use phono_console.Bluetooth.{map_transport_volume}
use phono_console.Amplifier.Volume.{IsNearest, round_div-IsNearest}

scale_le : (k n s : ℕ) → k ≤ n → k * s ≤ n * s
scale_le k n s h = grind arith

nearest_inside :
    (lo hi part r : ℕ)
    → lo ≤ hi
    → part ≤ 126 * (hi - lo)
    → IsNearest (lo * 126 + part) 126 r
    → (lo ≤ r) × (r ≤ hi)
nearest_inside lo hi part r h p n =
    (omega (arith, n.above, n.below), omega (arith, n.above, n.below))

scaled_inside :
    (raw lo hi : ℕ)
    → raw ≤ 127
    → lo ≤ hi
    → (lo ≤ round_div (lo * 126 + (raw - 1) * (hi - lo)) 126)
      × (round_div (lo * 126 + (raw - 1) * (hi - lo)) 126 ≤ hi)
scaled_inside raw lo hi r h =
    nearest_inside lo hi ((raw - 1) * (hi - lo)) (round_div (lo * 126 + (raw - 1) * (hi - lo)) 126)
      h (scale_le (raw - 1) 126 (hi - lo) (omega arith))
      (round_div-IsNearest (lo * 126 + (raw - 1) * (hi - lo)) 126 (omega arith))

-- For a range that is not empty, every volume of the phone but mute gives a volume in the range, also
-- one past 127; and mute stays mute.
pub map_transport_volume_bounds :
    (raw lo hi : ℕ)
    → lo ≤ hi
    → (map_transport_volume 0 lo hi ≡ 0)
      × (lo ≤ map_transport_volume (suc raw) lo hi)
      × (map_transport_volume (suc raw) lo hi ≤ hi)
unfolding map_transport_volume
map_transport_volume_bounds raw lo hi h = elim (Bool-cases (ltb 127 (suc raw))) [
  | inl e ↦ let inside = scaled_inside 127 lo hi (omega arith) h in rw e (refl, inside.0, inside.1)
  | inr e ↦
      let inside = scaled_inside (suc raw) lo hi (ground arith) h in
      let positive : (suc raw == 0) ≡ false = ground arith in
      rw (e, positive) (refl, inside.0, inside.1)
]

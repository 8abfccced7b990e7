-- ===== src/Protocol/Layout.antt =====
-- The fixed header layout of src/phono_console/audio_engine_protocol.py: packing and unpacking a
-- list of little-endian fields are inverse to each other.
use phono_console.Base.{
  ℕ, ◌+◌, ◌^◌, ◌≤◌, ◌<◌, ◌≡◌, refl, some, List, [], ◌∷◌, ◌++◌, arith, length, take, drop, All,
  length-append, take-append, drop-append, length-take, length-drop, take-add, All-take, All-drop,
  ◌∙◌,
}
use mathlib.Core.List.{append_assoc}
use phono_console.Base.Bytes.{
  IsByte, le, le_value, length-le, le_value-le, le_value-lt, le-le_value,
}
use phono_console.Protocol.{pack, unpack}

-- The number of bytes of a format.
abbrev pub total : List ℕ → ℕ
total [] = 0
total (n ∷ ns) = n + total ns

-- What a successful `pack` of one more field is made of.
pack_parts :
    (n v : ℕ) (ns vs : List ℕ) {bs : List ℕ}
    → pack (n ∷ ns) (v ∷ vs) ≡ some bs
    → (v < 256 ^ n) × (rest : List ℕ) × (pack ns vs ≡ some rest) × (bs ≡ le n v ++ rest)
unfolding pack
pack_parts n v ns vs h = ground arith

pub length-pack : (ns vs : List ℕ) {bs : List ℕ} → pack ns vs ≡ some bs → length bs ≡ total ns
length-pack [] [] h = unfold pack in ground arith
length-pack [] (v ∷ vs) h = unfold pack in cc
length-pack (n ∷ ns) [] h = unfold pack in cc
length-pack (n ∷ ns) (v ∷ vs) h =
    let (_, rest, e, b) = pack_parts n v ns vs h in
    rw b (omega (arith, length-append (le n v) rest, length-le n v, length-pack ns vs e))

pub unpack-pack :
    (ns vs : List ℕ) {bs : List ℕ} (tail : List ℕ)
    → pack ns vs ≡ some bs
    → unpack ns (bs ++ tail) ≡ vs
unfolding pack unpack
unpack-pack [] [] tail h = refl
unpack-pack [] (v ∷ vs) tail h = cc
unpack-pack (n ∷ ns) [] tail h = cc
unpack-pack (n ∷ ns) (v ∷ vs) tail h =
    let (fits, rest, e, b) = pack_parts n v ns vs h in
    rw (
      b,
      append_assoc,
      take-append n (le n v) (rest ++ tail) (length-le n v),
      drop-append n (le n v) (rest ++ tail) (length-le n v),
      le_value-le n v fits,
      unpack-pack ns vs tail e,
    )

pack_cons :
    (n v : ℕ) (ns vs : List ℕ) {rest : List ℕ}
    → v < 256 ^ n
    → pack ns vs ≡ some rest
    → pack (n ∷ ns) (v ∷ vs) ≡ some (le n v ++ rest)
unfolding pack
pack_cons n v ns vs h e = ground arith

le-take :
    (n : ℕ) (p : List ℕ)
    → All IsByte p
    → n ≤ length p
    → (le_value (take n p) < 256 ^ n) × (le n (le_value (take n p)) ≡ take n p)
le-take n p b h =
    let size = length-take n p h in
    let bytes = All-take IsByte n p b in
    (rw size at (le_value-lt (take n p) bytes), rw size at (le-le_value (take n p) bytes))

pub pack-unpack :
    (ns p : List ℕ)
    → All IsByte p
    → total ns ≤ length p
    → pack ns (unpack ns p) ≡ some (take (total ns) p)
unfolding pack unpack
pack-unpack [] p b h = refl
pack-unpack (n ∷ ns) p b h =
    let (fits, same) = le-take n p b (omega arith) in
    let later =
      pack-unpack ns (drop n p) (All-drop IsByte n p b) (omega (arith, length-drop n p)) in
    pack_cons n (le_value (take n p)) ns (unpack ns (drop n p)) fits later
    ∙ rw (same, take-add n (total ns) p)

-- Every unpacked value fits the width of its field.
abbrev pub Fits : List ℕ → List ℕ → Type 0
Fits (n ∷ ns) (v ∷ vs) = (v < 256 ^ n) × Fits ns vs
Fits _ _ = Unit

pub unpack-Fits : (ns p : List ℕ) → All IsByte p → total ns ≤ length p → Fits ns (unpack ns p)
unfolding unpack
unpack-Fits [] p b h = tt
unpack-Fits (n ∷ ns) p b h = (
  (le-take n p b (omega arith)).0,
  unpack-Fits ns (drop n p) (All-drop IsByte n p b) (omega (arith, length-drop n p)),
)

-- ===== src/Publisher/Pump/Timeline.antt =====
-- `SendspinSourcePublisher._pump` (src/phono_console/sendspin_source.py): the timestamps of a stream.
use phono_console.Base.{
  ℕ, suc, ◌+◌, ◌<◌, ◌≡◌, refl, ap, Bool, true, false, not, ◌&&◌, some, List, [], ◌∷◌, ◌++◌, map,
  arith, length, ℤ, pos, ◌+ℤ◌, ◌-ℤ◌,
}
use phono_console.Publisher.Pump.{
  Chunk, raw, stamped, Position, at_start, micros, anchor_of, stamp, stamps,
}

-- A raw block: its frames, and the clock when it was read.
abbrev pub raws : List (ℕ × ℤ) → List Chunk
raws blocks = map (λ b. raw b.0 b.1) blocks

-- The frames before each block, after `c` frames.
unfoldable pub offsets : ℕ → List (ℕ × ℤ) → List ℕ
offsets c [] = []
offsets c (b ∷ bs) = c ∷ offsets (c + b.0) bs

stamps-anchored :
    (rate lead : ℕ) (a : ℤ) (blocks : List (ℕ × ℤ)) (c : ℕ)
    → stamps rate lead (raws blocks) (record { anchor = some a; captured = c })
      ≡ (map (λ n. a +ℤ pos (micros rate n)) (offsets c blocks), false)
unfolding stamps stamp anchor_of offsets
stamps-anchored rate lead a [] c = refl
stamps-anchored rate lead a (b ∷ bs) c = rw (stamps-anchored rate lead a bs (c + b.0))

-- The raw blocks of a stream lie on one grid: the first one starts its own duration before the clock
-- was read, later by the lead, and every block follows by the frames that were captured before it,
-- whatever the clock was when it was read.
pub stamps_grid :
    (rate lead n : ℕ) (clock : ℤ) (blocks : List (ℕ × ℤ))
    → stamps rate lead (raws ((n, clock) ∷ blocks)) at_start ≡ (
      map
          (λ m. (clock -ℤ pos (micros rate n) +ℤ pos lead) +ℤ pos (micros rate m))
          (offsets 0 ((n, clock) ∷ blocks)),
      false,
    )
unfolding stamps stamp anchor_of offsets
stamps_grid rate lead n clock blocks =
    rw (stamps-anchored rate lead (clock -ℤ pos (micros rate n) +ℤ pos lead) blocks (0 + n))

-- The sum of the frames.
unfoldable pub frames_of : List Chunk → ℕ
frames_of [] = 0
frames_of (raw n clock ∷ cs) = n + frames_of cs
frames_of (stamped t n marked ∷ cs) = n + frames_of cs

unfoldable pub unmarked : List Chunk → Bool
unmarked [] = true
unmarked (raw n clock ∷ cs) = unmarked cs
unmarked (stamped t n marked ∷ cs) = not marked && unmarked cs

-- At the first marked frame, where audio precedes it, the stream breaks: every chunk before it has
-- been sent, and neither it nor what follows it is sent.
pub stamps_break :
    (rate lead : ℕ) (before after : List Chunk) (t : ℤ) (n : ℕ) (s : Position)
    → unmarked before ≡ true
    → 0 < s.captured + frames_of before
    → (stamps rate lead (before ++ stamped t n true ∷ after) s).1 ≡ true
      × length (stamps rate lead (before ++ stamped t n true ∷ after) s).0 ≡ length before
unfolding stamps stamp unmarked frames_of
stamps_break rate lead [] after t n s u h = (ground arith, ground arith)
stamps_break rate lead (raw m clock ∷ cs) after t n s u h =
    let a = anchor_of rate lead s.anchor m clock in
    let rest =
      stamps_break rate lead cs after t n (record { anchor = some a; captured = s.captured + m }) u
        (omega arith) in
    (rest.0, ap suc rest.1)
stamps_break rate lead (stamped t' m true ∷ cs) after t n s u h = absurd (ground arith)
stamps_break rate lead (stamped t' m false ∷ cs) after t n s u h =
    let rest =
      stamps_break rate lead cs after t n (record s { captured = s.captured + m }) u
        (omega arith) in
    (rest.0, ap suc rest.1)

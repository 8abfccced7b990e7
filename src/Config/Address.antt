-- ===== src/Config/Address.antt =====
-- The physical address that `_validate` (src/phono_console/config.py) accepts, and the bytes that
-- `physical_address_bytes` (src/phono_console/amplifier.py) makes of it.
use phono_console.Base.{
  ℕ, ◌≤◌, ◌≡◌, refl, sym, ap, ◌∙◌, ◌↔◌, true, false, ◌&&◌, List, [], ◌∷◌, ◌++◌, arith, ◌==◌,
  if◌then◌else◌, length, All,
}
use phono_console.Config.{Text}
use phono_console.Config.Validity.{split_dots, is_address, is_hex, all_nibbles}

-- Four hexadecimal digits with dots between them.
pub record Nibbles (t : Text) : Type 0 where
  pub first : ℕ
  pub second : ℕ
  pub third : ℕ
  pub fourth : ℕ
  pub digits : All (λ (d : ℕ). is_hex d ≡ true) (first ∷ second ∷ third ∷ fourth ∷ [])
  pub written : t ≡ first ∷ 46 ∷ second ∷ 46 ∷ third ∷ 46 ∷ fourth ∷ []

join_dots : List Text → Text
join_dots [] = []
join_dots (p ∷ []) = p
join_dots (p ∷ q ∷ ps) = p ++ (46 ∷ join_dots (q ∷ ps))

-- The step of `split_dots` for one more character in front.
split_step : ℕ → List Text → List Text
split_step c rest =
    if c == 46 then [] ∷ rest else elim rest [ [] ↦ (c ∷ []) ∷ [] | p ∷ ps ↦ (c ∷ p) ∷ ps ]

join_dots-split_step :
    (c : ℕ) (ps : List Text) → 1 ≤ length ps → join_dots (split_step c ps) ≡ c ∷ join_dots ps
unfolding join_dots split_step
join_dots-split_step c [] h = absurd (omega arith)
join_dots-split_step c (p ∷ []) h = ground arith
join_dots-split_step c (p ∷ q ∷ ps) h = ground arith

length-split_step : (c : ℕ) (ps : List Text) → 1 ≤ length (split_step c ps)
unfolding split_step
length-split_step c [] = ground arith
length-split_step c (p ∷ ps) = ground arith

length-split_dots : (t : Text) → 1 ≤ length (split_dots t)
unfolding split_dots split_step
length-split_dots [] = omega arith
length-split_dots (c ∷ cs) = length-split_step c (split_dots cs)

join_dots-split_dots : (t : Text) → join_dots (split_dots t) ≡ t
unfolding split_dots split_step join_dots
join_dots-split_dots [] = refl
join_dots-split_dots (c ∷ cs) =
    join_dots-split_step c (split_dots cs) (length-split_dots cs)
    ∙ ap (λ (r : Text). c ∷ r) (join_dots-split_dots cs)

four_parts :
    (t : Text) (ps : List Text)
    → join_dots ps ≡ t
    → ((length ps == 4) && all_nibbles ps) ≡ true
    → Nibbles t
unfolding join_dots
four_parts t ((a ∷ []) ∷ (b ∷ []) ∷ (c ∷ []) ∷ (d ∷ []) ∷ []) j h = record {
  first = a;
  second = b;
  third = c;
  fourth = d;
  digits = ground arith;
  written = sym j;
}
four_parts t _ j h = absurd (ground arith)

not_a_dot : (d : ℕ) → is_hex d ≡ true → (d == 46) ≡ false
not_a_dot d h = ground arith

dotted_address :
    (a b c d : ℕ)
    → All (λ (n : ℕ). is_hex n ≡ true) (a ∷ b ∷ c ∷ d ∷ [])
    → is_address (a ∷ 46 ∷ b ∷ 46 ∷ c ∷ 46 ∷ d ∷ []) ≡ true
unfolding is_address split_dots
dotted_address a b c d (ha, (hb, (hc, (hd, _)))) =
    rw (not_a_dot a ha, not_a_dot b hb, not_a_dot c hc, not_a_dot d hd, ha, hb, hc, hd) refl

-- `split(".")` and the tests on its parts accept exactly four hexadecimal digits with dots between
-- them.
pub is_address-Nibbles : (t : Text) → (is_address t ≡ true) ↔ Nibbles t
unfolding is_address split_dots
is_address-Nibbles t = (
  (λ h. four_parts t (split_dots t) (join_dots-split_dots t) h),
  (λ n. rw n.written (dotted_address n.first n.second n.third n.fourth n.digits)),
)

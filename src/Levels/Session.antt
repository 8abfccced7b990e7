-- ===== src/Levels/Session.antt =====
-- `LevelSession` (src/phono_console/levels.py): the maxima of a session are those of its PCM as a whole.
use Prim.Native.Nat.{max}
use phono_console.Base.{
  ℕ, ◌≤◌, ◌≡◌, refl, ap, inl, inr, ◌||◌, List, [], ◌∷◌, ◌++◌, arith, leb, leb→le, Bool-cases, ℤ,
  pos, ◌≤ℤ◌, leb_ℤ, eq_of_parts,
}
use phono_console.Levels.{Scale, max_ℤ, dbfs, peak, clips, channel, LevelSession, fresh, update}

-- What the code relies on of the logarithm: it grows, and its floor is below it and below 0.
pub record IsScale (x : Scale) : Type 0 where
  pub grows : (a b : ℕ) → a ≤ b → x.logarithm a ≤ℤ x.logarithm b
  pub above : (a : ℕ) → 1 ≤ a → x.floor ≤ℤ x.logarithm a
  pub below : x.floor ≤ℤ pos 0

dbfs_mono : (x : Scale) → IsScale x → (a b : ℕ) → a ≤ b → dbfs x a ≤ℤ dbfs x b
unfolding dbfs
dbfs_mono x s a b h = ground (arith, s.grows a b h, s.above b, s.below)

max_right : (u v : ℤ) → u ≤ℤ v → max_ℤ u v ≡ v
max_right u v h = ground arith

max_left : (u v : ℤ) → v ≤ℤ u → max_ℤ u v ≡ u
max_left u v h = elim (Bool-cases (leb_ℤ u v)) [
  | inl e ↦ rw e (eq_of_parts v u (ground arith))
  | inr e ↦ rw e refl
]

dbfs-max : (x : Scale) → IsScale x → (a b : ℕ) → max_ℤ (dbfs x a) (dbfs x b) ≡ dbfs x (max a b)
dbfs-max x s a b = elim (Bool-cases (leb a b)) [
  | inl e ↦
      let top : max a b ≡ b = ground arith in
      rw top (max_right (dbfs x a) (dbfs x b) (dbfs_mono x s a b (leb→le a b e)))
  | inr e ↦
      let top : max a b ≡ a = ground arith in
      rw top (max_left (dbfs x a) (dbfs x b) (dbfs_mono x s b a (ground arith)))
]

peak-append : (us vs : List ℤ) → peak (us ++ vs) ≡ max (peak us) (peak vs)
unfolding peak
peak-append [] vs = omega arith
peak-append (u ∷ us) vs = rw (peak-append us vs) (omega arith)

clips-append : (us vs : List ℤ) → clips (us ++ vs) ≡ (clips us || clips vs)
unfolding clips
clips-append [] vs = refl
clips-append (u ∷ us) vs = ground (arith, clips-append us vs)

-- The session after blocks of left and right samples.
unfoldable pub update_all : Scale → List (List ℤ × List ℤ) → LevelSession → LevelSession
unfolding update channel
update_all x [] s = s
update_all x (b ∷ bs) s =
    update_all x bs (update (record { left = channel x b.0; right = channel x b.1 }) s)

abbrev pub lefts : List (List ℤ × List ℤ) → List ℤ
lefts [] = []
lefts (b ∷ bs) = b.0 ++ lefts bs

abbrev pub rights : List (List ℤ × List ℤ) → List ℤ
rights [] = []
rights (b ∷ bs) = b.1 ++ rights bs

-- The session that has seen these samples.
pub seen : Scale → List ℤ → List ℤ → LevelSession
seen x us vs = record {
  max_left_dbfs = dbfs x (peak us);
  max_right_dbfs = dbfs x (peak vs);
  left_clipped = clips us;
  right_clipped = clips vs;
}

update-seen :
    (x : Scale)
    → IsScale x
    → (us vs us' vs' : List ℤ)
    → update (record { left = channel x us'; right = channel x vs' }) (seen x us vs)
      ≡ seen x (us ++ us') (vs ++ vs')
unfolding update channel seen
update-seen x s us vs us' vs' =
    rw
      (
        peak-append us us',
        peak-append vs vs',
        clips-append us us',
        clips-append vs vs',
        dbfs-max x s (peak us) (peak us'),
        dbfs-max x s (peak vs) (peak vs'),
      )
      refl

++-nil : {A : Type 0} (xs : List A) → xs ++ [] ≡ xs
++-nil [] = refl
++-nil (x ∷ xs) = ap (λ ws. x ∷ ws) (++-nil xs)

++-assoc : {A : Type 0} (xs ys zs : List A) → (xs ++ ys) ++ zs ≡ xs ++ (ys ++ zs)
++-assoc [] ys zs = refl
++-assoc (x ∷ xs) ys zs = ap (λ ws. x ∷ ws) (++-assoc xs ys zs)

update_all-seen :
    (x : Scale)
    → IsScale x
    → (bs : List (List ℤ × List ℤ)) (us vs : List ℤ)
    → update_all x bs (seen x us vs) ≡ seen x (us ++ lefts bs) (vs ++ rights bs)
unfolding update_all
update_all-seen x s [] us vs = rw (++-nil us, ++-nil vs) refl
update_all-seen x s (b ∷ bs) us vs = rw (update-seen x s us vs b.0 b.1) (
    rw (← ++-assoc us b.0 (lefts bs), ← ++-assoc vs b.1 (rights bs))
      (update_all-seen x s bs (us ++ b.0) (vs ++ b.1)))

-- On a scale whose logarithm grows and whose floor is below it and below 0, a session of blocks that
-- were read one by one has the peaks and the clip marks of their samples taken as one block.
pub update_all-whole :
    (x : Scale) (bs : List (List ℤ × List ℤ))
    → IsScale x
    → update_all x bs (fresh x.floor) ≡ record {
      max_left_dbfs = dbfs x (peak (lefts bs));
      max_right_dbfs = dbfs x (peak (rights bs));
      left_clipped = clips (lefts bs);
      right_clipped = clips (rights bs);
    }
unfolding seen dbfs peak clips
update_all-whole x bs s = update_all-seen x s bs [] []

-- ===== src/Fanout/Delivery.antt =====
-- What a queue of `FrameFanout` (src/phono_console/audio_engine_client.py) holds after a series
-- of deliveries with no reader, and which frames carry the discontinuity mark.
use phono_console.Base.{
  ℕ, suc, ◌+◌, ◌-◌, ◌≤◌, ◌<◌, ◌≡◌, refl, sym, subst, ap, ◌∙◌, true, false, List, [], ◌∷◌, ◌++◌, map,
  arith, leb, if◌then◌else◌, length, length-append, take_last, take_last-append,
}
use phono_console.Protocol.{TimestampedPcm}
use mathlib.Core.List.{map-append, append-nil, append_assoc}
use native.Mathlib.Decide.{ℕ_discrete}
use phono_console.Fanout.Bounds.{length-offer}
use phono_console.Fanout.{Queue, offer, marked}

-- A frame up to its flags.
abbrev pub bare : TimestampedPcm → TimestampedPcm
bare f = record f { flags = 0 }

pub offer_all : ℕ → List TimestampedPcm → Queue → Queue × ℕ
offer_all n [] q = (q, 0)
offer_all n (f ∷ fs) q =
    let (q', dropped) = offer n f q in
    let (q'', count) = offer_all n fs q' in (q'', (if dropped then 1 else 0) + count)

length-map : (f : TimestampedPcm → TimestampedPcm) (q : Queue) → length (map f q) ≡ length q
length-map f [] = refl
length-map f (x ∷ q) = ap suc (length-map f q)

offer-room :
    (n : ℕ) (f : TimestampedPcm) (q : Queue)
    → length q < n
    → map bare (offer n f q).0 ≡ take_last n (map bare (q ++ (f ∷ [])))
unfolding offer
offer-room n f q h =
    let room : leb n (length q) ≡ false = ground arith in
    let all : length (map bare (q ++ (f ∷ []))) - n ≡ 0 =
      omega (arith, length-map bare (q ++ (f ∷ [])), length-append q (f ∷ [])) in
    rw (room, all)

offer-full :
    (n : ℕ) (f : TimestampedPcm) (q : Queue)
    → 0 < n
    → length q ≡ n
    → map bare (offer n f q).0 ≡ take_last n (map bare (q ++ (f ∷ [])))
unfolding offer
offer-full n f [] p h = absurd (omega arith)
offer-full n f (x ∷ q) p h =
    let full : leb n (suc (length q)) ≡ true = ground arith in
    let one : suc (length (map bare (q ++ (f ∷ [])))) - n ≡ 1 =
      omega (arith, length-map bare (q ++ (f ∷ [])), length-append q (f ∷ [])) in
    rw (full, one, map-append bare q (marked f ∷ []), map-append bare q (f ∷ []))

offer-take_last :
    (n : ℕ) (f : TimestampedPcm) (q : Queue)
    → 0 < n
    → length q ≤ n
    → map bare (offer n f q).0 ≡ take_last n (map bare q ++ (bare f ∷ []))
offer-take_last n f q p h = elim (ℕ_discrete (length q) n) [
  | yes e ↦ offer-full n f q p e ∙ rw (map-append bare q (f ∷ []))
  | no e ↦ offer-room n f q (omega arith) ∙ rw (map-append bare q (f ∷ []))
]

-- Up to the flags, a queue of positive size that is within its bound and that nobody reads holds the
-- last `queue_frames` of what it held and what was delivered, in order.
pub offer_all-take_last :
    (n : ℕ) (fs : List TimestampedPcm) (q : Queue)
    → 0 < n
    → length q ≤ n
    → map bare (offer_all n fs q).0 ≡ take_last n (map bare q ++ map bare fs)
unfolding offer_all
offer_all-take_last n [] q p h =
    let all : length (map bare q) - n ≡ 0 = omega (arith, length-map bare q) in rw (append-nil, all)
offer_all-take_last n (f ∷ fs) q p h =
    let later = offer_all-take_last n fs (offer n f q).0 p (length-offer n f q p h) in
    let early = take_last-append n (map bare q ++ (bare f ∷ [])) (map bare fs) in
    rw append_assoc at (rw (offer-take_last n f q p h) at later ∙ early)

dropped-offer :
    (n : ℕ) (f : TimestampedPcm) (q : Queue)
    → 0 < n
    → length q ≤ n
    → length (offer n f q).0 + (if (offer n f q).1 then 1 else 0) ≡ length q + 1
unfolding offer
dropped-offer n f [] p h = ground arith
dropped-offer n f (x ∷ q) p h =
    ground (arith, length-append q (f ∷ []), length-append q (marked f ∷ []))

-- The frames dropped at a queue that nobody reads are exactly those that did not fit: what is held
-- plus what was dropped is what was held plus what was delivered.
pub dropped-offer_all :
    (n : ℕ) (fs : List TimestampedPcm) (q : Queue)
    → 0 < n
    → length q ≤ n
    → length (offer_all n fs q).0 + (offer_all n fs q).1 ≡ length q + length fs
unfolding offer_all
dropped-offer_all n [] q p h = omega arith
dropped-offer_all n (f ∷ fs) q p h = omega (
  arith,
  dropped-offer_all n fs (offer n f q).0 p (length-offer n f q p h),
  dropped-offer n f q p h,
)

-- A full queue to which nobody reads as many frames are delivered as stand before `rest` in it.
overflowed :
    (n : ℕ) (lost rest fs : Queue)
    → length (lost ++ rest) ≡ n
    → length fs ≡ length lost
    → offer_all n fs (lost ++ rest) ≡ (rest ++ map marked fs, length lost)
unfolding offer_all
overflowed n [] rest [] h k = rw append-nil
overflowed n [] rest (f ∷ fs) h k = absurd (omega (arith, k))
overflowed n (x ∷ lost) rest [] h k = absurd (omega (arith, k))
overflowed n (x ∷ lost) rest (f ∷ fs) h k =
    let full : leb n (suc (length (lost ++ rest))) ≡ true = ground arith in
    let later =
      overflowed n lost (rest ++ (marked f ∷ [])) fs
        (omega (
          arith,
          h,
          length-append lost (rest ++ (marked f ∷ [])),
          length-append rest (marked f ∷ []),
          length-append lost rest,
        ))
        (omega (arith, k)) in
    let first : offer n f (x ∷ (lost ++ rest)) ≡ (lost ++ (rest ++ (marked f ∷ [])), true) =
      offer-lost n f x lost rest full in
    rw (first, later, append_assoc) (ground arith)
  where
    offer-lost :
        (n : ℕ) (f x : TimestampedPcm) (lost rest : Queue)
        → leb n (suc (length (lost ++ rest))) ≡ true
        → offer n f (x ∷ (lost ++ rest)) ≡ (lost ++ (rest ++ (marked f ∷ [])), true)
    offer-lost n f x lost rest full = unfold offer in rw (full, append_assoc)

-- Frames with consecutive sequence numbers, from this one.
abbrev pub Numbered : ℕ → Queue → Type 0
Numbered s [] = Unit {0}
Numbered s (f ∷ fs) = (f.sequence ≡ s) × Numbered (suc s) fs

Numbered-append :
    (s : ℕ) (xs ys : Queue) → Numbered s (xs ++ ys) → Numbered s xs × Numbered (s + length xs) ys
Numbered-append s [] ys h =
    let same : s ≡ s + 0 = omega arith in (tt, subst (λ k. Numbered k ys) same h)
Numbered-append s (x ∷ xs) ys (e, h) =
    let (left, right) = Numbered-append (suc s) xs ys h in
    let same : suc s + length xs ≡ s + suc (length xs) = omega arith in
    ((e, left), subst (λ k. Numbered k ys) same right)

Numbered-remark : (s : ℕ) (xs ys : Queue) → Numbered s (xs ++ ys) → Numbered s (xs ++ map marked ys)
Numbered-remark s [] [] h = h
Numbered-remark s [] (y ∷ ys) (e, h) = (e, Numbered-remark (suc s) [] ys h)
Numbered-remark s (x ∷ xs) ys (e, h) = (e, Numbered-remark (suc s) xs ys h)

-- The mark of an overflow is not on the frame that is read next. When frames with consecutive numbers
-- are delivered to a full queue that nobody reads, as many as stand before y in it, then exactly
-- those are dropped, the next frame that is read is y with the flags it had, numbered later by the
-- frames lost before it, and behind y, where every delivered frame stands with a mark, no number is
-- missing.
pub overflow_mark_misplaced :
    (n s : ℕ) (lost rest fs : Queue) (y : TimestampedPcm)
    → length (lost ++ (y ∷ rest)) ≡ n
    → length fs ≡ length lost
    → Numbered s ((lost ++ (y ∷ rest)) ++ fs)
    → (offer_all n fs (lost ++ (y ∷ rest)) ≡ (y ∷ (rest ++ map marked fs), length lost))
      × (y.sequence ≡ s + length lost)
      × Numbered (suc y.sequence) (rest ++ map marked fs)
overflow_mark_misplaced n s lost rest fs y h k numbered =
    let regrouped : Numbered s (lost ++ (y ∷ (rest ++ fs))) =
      subst (λ q. Numbered s q) (append_assoc lost (y ∷ rest) fs) numbered in
    let (head, behind) = (Numbered-append s lost (y ∷ (rest ++ fs)) regrouped).1 in
    (
      overflowed n lost (y ∷ rest) fs h k,
      head,
      subst (λ i. Numbered (suc i) (rest ++ map marked fs)) (sym head)
          (Numbered-remark (suc (s + length lost)) rest fs behind),
    )

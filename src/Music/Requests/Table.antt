-- ===== src/Music/Requests/Table.antt =====
-- The table of play requests of `MusicAssistantState` (src/phono_console/ma.py): look-up after a change.
use text.Mathlib.TextEquality.{eq_iff}
use phono_console.Base.{
  String, ◌≡◌, refl, inl, inr, true, false, some, List, [], ◌∷◌, arith, Bool-cases,
}
use phono_console.Music.Requests.{Key, same_key, same_names, Request, find, put, remove}

pub same_key_refl : (k : Key) → same_key k k ≡ true
unfolding same_key
same_key_refl (c, ns) = rw ((eq_iff c c).1 refl) (same_names-refl ns)
  where
    same_names-refl : (ns : List String) → same_names ns ns ≡ true
    same_names-refl [] = refl
    same_names-refl (n ∷ ns) = rw ((eq_iff n n).1 refl) (same_names-refl ns)

pub find-put : (k : Key) (r : Request) (es : List (Key × Request)) → find k (put k r es) ≡ some r
unfolding find put
find-put k r [] = rw (same_key_refl k) refl
find-put k r ((k', old) ∷ es) = elim (Bool-cases (same_key k' k)) [
  | inl h ↦ rw (h, h) refl
  | inr h ↦ rw (h, h) (find-put k r es)
]

pub same_key_eq : (a b : Key) → same_key a b ≡ true → a ≡ b
unfolding same_key
same_key_eq (c, ns) (d, ms) h =
    cc ((eq_iff c d).0 (ground (arith, h)), same_names_eq ns ms (ground (arith, h)))
  where
    same_names_eq : (ns ms : List String) → same_names ns ms ≡ true → ns ≡ ms
    same_names_eq [] [] h = refl
    same_names_eq [] (m ∷ ms) h = absurd (ground arith)
    same_names_eq (n ∷ ns) [] h = absurd (ground arith)
    same_names_eq (n ∷ ns) (m ∷ ms) h =
        cc ((eq_iff n m).0 (ground (arith, h)), same_names_eq ns ms (ground (arith, h)))

-- Keys that are the same as one key are apart from the same keys.
apart : (k a b : Key) → same_key k a ≡ true → same_key a b ≡ false → same_key k b ≡ false
apart k a b h d = rw (same_key_eq k a h) d

pub find-put_other :
    (a b : Key) (r : Request) (es : List (Key × Request))
    → same_key a b ≡ false
    → find b (put a r es) ≡ find b es
unfolding find put
find-put_other a b r [] d = rw d refl
find-put_other a b r ((k, old) ∷ es) d = elim (Bool-cases (same_key k a)) [
  | inl h ↦ rw (h, apart k a b h d) refl
  | inr h ↦ rw h (rw (find-put_other a b r es d) refl)
]

pub find-remove_other :
    (a b : Key) (es : List (Key × Request))
    → same_key a b ≡ false
    → find b (remove a es) ≡ find b es
unfolding find remove
find-remove_other a b [] d = refl
find-remove_other a b ((k, old) ∷ es) d = elim (Bool-cases (same_key k a)) [
  | inl h ↦ rw (h, apart k a b h d) refl
  | inr h ↦ rw h (rw (find-remove_other a b es d) refl)
]

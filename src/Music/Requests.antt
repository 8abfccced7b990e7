-- ===== src/Music/Requests.antt =====
-- `MusicAssistantState.play_vinyl_source` (src/phono_console/ma.py) and its table of play requests.
pub mod Table
pub mod Coalescing
use text.Mathlib.Text.{◌==◌ as str_eq}
use phono_console.Base.{
  ℕ, zero, suc, ◌+◌, ◌-◌, ◌*◌, ◌/◌, ◌%◌, ◌^◌, ◌≤◌, ◌<◌, String, ◌≡◌, refl, sym, ap, ◌∙◌, subst, ◌≢◌,
  ◌↔◌, ◌⊎◌, inl, inr, Bool, true, false, not, ◌&&◌, ◌||◌, Option, none, some, List, [], ◌∷◌, ◌++◌,
  map, arith, ltb, leb, ◌==◌, if◌then◌else◌, leb→le, ==_iff, Bool-cases, Option-cases, is_some,
  length, take, drop, length-append, length-drop, All, All-append, take-append, drop-append,
  take-append-drop, length-take, take-add, take_last, drop-append_le, drop-drop, take_last-append,
  All-take, All-drop, ℤ, pos, negsuc, pos_part, neg_part, sub_ℕ, ◌+ℤ◌, ◌-ℤ◌, ◌≤ℤ◌, leb_ℤ, ltb_ℤ,
  +ℤ_parts, -ℤ_parts, eq_of_parts, int_laws,
}

-- The source's client and the names of the players.
abbrev pub Key : Type 0
Key = String × List String

abbrev pub same_names : List String → List String → Bool
same_names [] [] = true
same_names (a ∷ xs) (b ∷ ys) = str_eq a b && same_names xs ys
same_names _ _ = false

unfoldable pub same_key : Key → Key → Bool
same_key a b = str_eq a.0 b.0 && same_names a.1 b.1

-- A table entry: the number of the request, which names its task, and whether the task is done.
pub record Request : Type 0 where
  pub id : ℕ
  pub retry_at : ℕ
  pub done : Bool

pub record PlayRequests : Type 0 where
  pub entries : List (Key × Request)
  pub sequence : ℕ

unfoldable pub find : Key → List (Key × Request) → Option Request
unfolding same_key
find key [] = none
find key ((k, r) ∷ rest) = let found = find key rest in if same_key k key then some r else found

unfoldable pub put : Key → Request → List (Key × Request) → List (Key × Request)
unfolding same_key
put key r [] = (key, r) ∷ []
put key r ((k, old) ∷ rest) =
    let rest' = put key r rest in if same_key k key then (k, r) ∷ rest else (k, old) ∷ rest'

unfoldable pub remove : Key → List (Key × Request) → List (Key × Request)
unfolding same_key
remove key [] = []
remove key ((k, r) ∷ rest) =
    let rest' = remove key rest in if same_key k key then rest else (k, r) ∷ rest'

pub data Reason : Type 0 where
  in_flight settling : Reason

-- A caller waits for the request that is there, or for a new one that may replace an expired one.
pub data Answer : Type 0 where
  suppressed : ℕ → Reason → Answer
  submitted : ℕ → Option ℕ → Answer

unfoldable pub submit : ℕ → ℕ → Key → Option ℕ → PlayRequests → PlayRequests × Answer
unfolding put
submit timeout now key expired s =
    let id = s.sequence + 1 in
    let r : Request = record { id = id; retry_at = now + timeout; done = false } in
    (record { entries = put key r s.entries; sequence = id }, submitted id expired)

-- `play_vinyl_source` up to its wait for the task.
unfoldable pub play_vinyl_source : ℕ → ℕ → Key → PlayRequests → PlayRequests × Answer
unfolding find submit
play_vinyl_source timeout now key s = elim (find key s.entries) [
  | none ↦ submit timeout now key none s
  | some r ↦
      if not r.done || ltb now r.retry_at
      then (s, suppressed r.id (if r.done then settling else in_flight))
      else submit timeout now key (some r.id) s
]

-- The task of this request is done.
unfoldable pub finish : ℕ → PlayRequests → PlayRequests
finish id s = record s {
  entries = map (λ e. (e.0, record e.1 { done = e.1.done || (e.1.id == id) })) s.entries;
}

-- The end of `play_vinyl_source` for a caller whose task raised.
unfoldable pub forget : Key → ℕ → PlayRequests → PlayRequests
unfolding find remove
forget key id s = elim (find key s.entries) [
  | none ↦ s
  | some r ↦ if r.id == id then record s { entries = remove key s.entries } else s
]

-- `invalidate_play_requests`, and the requests whose tasks it cancels.
unfoldable pub invalidate_play_requests : PlayRequests → PlayRequests × List ℕ
invalidate_play_requests s = (record s { entries = [] }, undone s.entries)
  where
    undone : List (Key × Request) → List ℕ
    undone [] = []
    undone (e ∷ rest) = if e.1.done then undone rest else e.1.id ∷ undone rest

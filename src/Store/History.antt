-- ===== src/Store/History.antt =====
-- The traffic history of the store (web/src/lib/store.ts) against the log of all points added.
use mathlib.Core.List.{append-nil, append_assoc}
use karadul.Base.{
  ℕ, suc, ◌+◌, ◌-◌, ◌≤◌, ◌≡◌, sym, ap, ◌∙◌, inl, inr, List, [], ◌∷◌, ◌++◌, arith, ltb,
  if◌then◌else◌, Bool-cases, length, drop, length-append, length-drop, drop-append_le, drop-drop,
  Text,
}
use karadul.Store.{
  TrafficPoint, max_traffic_history, KaradulState, initial_state, add_traffic_point, Action, act,
  run, traffic_point,
}

-- The points that a session adds, oldest first.
abbrev pub points_added : List Action → List TrafficPoint
points_added [] = []
points_added (traffic_point time rx tx ∷ rest) =
    record { time = time; rx = rx; tx = tx } ∷ points_added rest
points_added (_ ∷ rest) = points_added rest

-- The last n elements of a list.
abbrev pub take_last {ℓ} : {A : Type ℓ} → ℕ → List A → List A
take_last n xs = drop (length xs - n) xs

pub take_last_all {ℓ} : {A : Type ℓ} (n : ℕ) (xs : List A) → length xs ≤ n → take_last n xs ≡ xs
take_last_all n xs h = let e : length xs - n ≡ 0 = omega arith in rw e

-- The bound that an addition restores: of n + 1 elements at most, and one more, the last n + 1.
take_last-append_one {ℓ} :
    {A : Type ℓ} (n : ℕ) (xs : List A) (x : A)
    → length xs ≤ suc n
    → take_last (suc n) (xs ++ x ∷ []) ≡ (
        if ltb (suc n) (length (xs ++ x ∷ []))
        then drop (length (xs ++ x ∷ []) - suc n) (xs ++ x ∷ [])
        else xs ++ x ∷ [])
take_last-append_one n xs x h = elim (Bool-cases (ltb (suc n) (length (xs ++ x ∷ [])))) [
  | inl more ↦ rw more
  | inr fits ↦ rw fits (take_last_all (suc n) (xs ++ x ∷ []) (ground arith))
]

-- Keeping the last n of a part keeps the last n of the whole.
pub take_last-append {ℓ} :
    {A : Type ℓ} (n : ℕ) (xs ys : List A)
    → take_last n (take_last n xs ++ ys) ≡ take_last n (xs ++ ys)
take_last-append n xs ys =
    let a : ℕ = length xs - n in
    let k : ℕ = length (drop a xs ++ ys) - n in
    let total : a + k ≡ length (xs ++ ys) - n =
      omega (arith, length-append (drop a xs) ys, length-append xs ys, length-drop a xs) in
    let inner : drop a xs ++ ys ≡ drop a (xs ++ ys) = sym (drop-append_le a xs ys (omega arith)) in
    ap (drop k) inner ∙ drop-drop k a (xs ++ ys) ∙ ap (λ (t : ℕ). drop t (xs ++ ys)) total

abbrev pub IsBounded : KaradulState → Type 0
IsBounded s = length s.traffic_history ≤ max_traffic_history

pub length-take_last {ℓ} : {A : Type ℓ} (n : ℕ) (xs : List A) → length (take_last n xs) ≤ n
length-take_last n xs = omega (arith, length-drop (length xs - n) xs)

pub traffic_history-add_traffic_point :
    (time : Text) (rx tx : ℕ) (s : KaradulState)
    → IsBounded s
    → (add_traffic_point time rx tx s).traffic_history
      ≡ take_last max_traffic_history
          (s.traffic_history ++ record { time = time; rx = rx; tx = tx } ∷ [])
unfolding add_traffic_point
traffic_history-add_traffic_point time rx tx s h =
    sym (take_last-append_one 29 s.traffic_history _ h)

-- From a state whose history is within its bound, a session leaves the last 30 of the points that
-- the state had and the session added.
traffic_history-run_from :
    (actions : List Action) (s : KaradulState)
    → IsBounded s
    → (run s actions).traffic_history
      ≡ take_last max_traffic_history (s.traffic_history ++ points_added actions)
unfolding act
traffic_history-run_from [] s h =
    rw append-nil (sym (take_last_all max_traffic_history s.traffic_history h))
traffic_history-run_from (traffic_point time rx tx ∷ rest) s h =
    let point : TrafficPoint = record { time = time; rx = rx; tx = tx } in
    let s' : KaradulState = add_traffic_point time rx tx s in
    let new : s'.traffic_history ≡ take_last max_traffic_history (s.traffic_history ++ point ∷ []) =
      traffic_history-add_traffic_point time rx tx s h in
    let bounded : IsBounded s' =
      rw new (length-take_last max_traffic_history (s.traffic_history ++ point ∷ [])) in
    traffic_history-run_from rest s' bounded
    ∙ ap (λ (t : List TrafficPoint). take_last max_traffic_history (t ++ points_added rest)) new
    ∙ take_last-append max_traffic_history (s.traffic_history ++ point ∷ []) (points_added rest)
    ∙ ap (take_last max_traffic_history) (append_assoc s.traffic_history _ _)
traffic_history-run_from (_ ∷ rest) s h = traffic_history-run_from rest _ h

-- In every session from the initial state, the traffic history is the last 30 of the points that
-- the session added, in their order.
pub traffic_history-run :
    (actions : List Action)
    → (run initial_state actions).traffic_history
      ≡ take_last max_traffic_history (points_added actions)
traffic_history-run actions = traffic_history-run_from actions initial_state (omega arith)

-- In every session from the initial state, the traffic history holds at most 30 points.
pub length-traffic_history :
    (actions : List Action)
    → length (run initial_state actions).traffic_history ≤ max_traffic_history
length-traffic_history actions =
    rw (traffic_history-run actions) (length-take_last max_traffic_history (points_added actions))

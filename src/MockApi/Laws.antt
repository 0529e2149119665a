-- ===== src/MockApi/Laws.antt =====
-- What the in-memory coordinator of web/src/lib/mock-api.ts promises.
use mathlib.Core.Option
use karadul.Base.{
  ℕ, suc, ◌-◌, ◌≤◌, ◌≡◌, refl, ap, ◌∙◌, inl, inr, Bool, Option, none, some, List, [], ◌∷◌, arith,
  if◌then◌else◌, Bool-cases, count, Text, text_eq,
}
use karadul.Store.{Node}
use karadul.Api.Mutations.{AuthKey}
use karadul.MockApi.{MockState, find_index, erase_found, delete_node, get_stats, delete_auth_key}

-- The list without its first element that passes the test.
abbrev pub without_first {ℓ} : {A : Type ℓ} → (A → Bool) → List A → List A
without_first p [] = []
without_first p (x ∷ xs) = let rest = without_first p xs in if p x then xs else x ∷ rest

pub erase_found-find_index {ℓ} :
    {A : Type ℓ} (p : A → Bool) (xs : List A)
    → erase_found (find_index p xs) xs ≡ without_first p xs
erase_found-find_index p [] = refl
erase_found-find_index p (x ∷ xs) = elim (Bool-cases (p x)) [
  | inl found ↦ rw found
  | inr more ↦ rw more (shifted (find_index p xs) (erase_found-find_index p xs))
]
  where
    shifted :
        (o : Option ℕ)
        → erase_found o xs ≡ without_first p xs
        → erase_found (Option.map suc o) (x ∷ xs) ≡ x ∷ without_first p xs
    shifted none e = ap (x ∷◌) e
    shifted (some i) e = ap (x ∷◌) e

count-without_first {ℓ} :
    {A : Type ℓ} (p : A → Bool) (xs : List A) → count p (without_first p xs) ≡ count p xs - 1
count-without_first p [] = refl
count-without_first p (x ∷ xs) = ground (arith, count-without_first p xs)

-- Deleting a node or a key takes away the first one with the identifier and no other, and nothing if
-- there is none: one fewer is left with the identifier.
pub delete_lem :
    (id : Text) (s : MockState)
    → let has_id = λ (n : Node). text_eq n.id id in
      let is_key = λ (k : AuthKey). text_eq k.id id in
      (delete_node id s ≡ record s { nodes = without_first has_id s.nodes })
      × (count has_id (delete_node id s).nodes ≡ count has_id s.nodes - 1)
      × (delete_auth_key id s ≡ record s { auth_keys = without_first is_key s.auth_keys })
      × (count is_key (delete_auth_key id s).auth_keys ≡ count is_key s.auth_keys - 1)
unfolding delete_node delete_auth_key
delete_lem id s =
    let has_id = λ (n : Node). text_eq n.id id in
    let is_key = λ (k : AuthKey). text_eq k.id id in
    let nodes = erase_found-find_index has_id s.nodes in
    let keys = erase_found-find_index is_key s.auth_keys in
    (
      ap (λ (l : List Node). record s { nodes = l }) nodes,
      ap (count has_id) nodes ∙ count-without_first has_id s.nodes,
      ap (λ (l : List AuthKey). record s { auth_keys = l }) keys,
      ap (count is_key) keys ∙ count-without_first is_key s.auth_keys,
    )

-- The CPU usage that is shown stays between 5 and 50 per cent.
pub get_stats-cpu_usage :
    (random more : ℕ) (s : MockState)
    → (5000 ≤ (get_stats random more s).cpu_usage) × ((get_stats random more s).cpu_usage ≤ 50000)
unfolding get_stats
get_stats-cpu_usage random more s = (omega arith, omega arith)

-- ===== src/Pages/Settings/Rules.antt =====
-- The editor of the access rules (web/src/pages/settings.tsx).
use mathlib.Core.Option
use karadul.Base.{
  erase_idx, ℕ, zero, suc, ◌+◌, ◌<◌, ◌≡◌, refl, ap, ◌∙◌, ◌≢◌, not, Option, none, some, List, [],
  ◌∷◌, ◌++◌, arith, ◌==◌, if◌then◌else◌, length, get_elem?,
}
use karadul.Api.Mutations.{AclRule}
use karadul.Pages.Settings.{
  map_from, filter_from, SettingsPage, handle_add_acl_rule, RuleField, with_field, update_acl_rule,
  remove_acl_rule,
}

abbrev update_at : (AclRule → AclRule) → List AclRule → ℕ → List AclRule
update_at f [] i = []
update_at f (x ∷ xs) zero = f x ∷ xs
update_at f (x ∷ xs) (suc i) = x ∷ update_at f xs i

-- Beyond the index nothing is changed.
map_from-past :
    (f : AclRule → AclRule) (index i : ℕ) (rules : List AclRule)
    → index < i
    → map_from (λ j rule. if j == index then f rule else rule) i rules ≡ rules
unfolding map_from
map_from-past f index i [] h = refl
map_from-past f index i (rule ∷ rules) h = ground (arith, map_from-past f index (suc i) rules)

map_from-at :
    (f : AclRule → AclRule) (index k i : ℕ) (rules : List AclRule)
    → index ≡ i + k
    → map_from (λ j rule. if j == index then f rule else rule) i rules ≡ update_at f rules k
unfolding map_from
map_from-at f index k i [] h = refl
map_from-at f index zero i (rule ∷ rules) h =
    ground (arith, map_from-past f index (suc i) rules (omega arith))
map_from-at f index (suc k) i (rule ∷ rules) h =
    ground (arith, map_from-at f index k (suc i) rules (omega arith))

filter_from-past :
    (index i : ℕ) (rules : List AclRule)
    → index < i
    → filter_from (λ j. not (j == index)) i rules ≡ rules
unfolding filter_from
filter_from-past index i [] h = refl
filter_from-past index i (rule ∷ rules) h = ground (arith, filter_from-past index (suc i) rules)

filter_from-at :
    (index k i : ℕ) (rules : List AclRule)
    → index ≡ i + k
    → filter_from (λ j. not (j == index)) i rules ≡ erase_idx rules k
unfolding filter_from
filter_from-at index k i [] h = refl
filter_from-at index zero i (rule ∷ rules) h =
    ground (arith, filter_from-past index (suc i) rules (omega arith))
filter_from-at index (suc k) i (rule ∷ rules) h =
    ground (arith, filter_from-at index k (suc i) rules (omega arith))

erase_idx-append_length {ℓ} :
    {A : Type ℓ} (xs : List A) (x : A) → erase_idx (xs ++ x ∷ []) (length xs) ≡ xs
erase_idx-append_length [] x = refl
erase_idx-append_length (y ∷ xs) x = ap (y ∷◌) (erase_idx-append_length xs x)

-- A removal takes away the rule at its index and no other, and nothing past the end; a removal of the
-- rule that was just added gives the page back as it was.
pub remove_acl_rule_lem :
    (index : ℕ) (page : SettingsPage)
    → (remove_acl_rule index page ≡ record page { acl_rules = erase_idx page.acl_rules index })
      × (remove_acl_rule (length page.acl_rules) (handle_add_acl_rule page) ≡ page)
unfolding remove_acl_rule handle_add_acl_rule
remove_acl_rule_lem index page =
    let kept : filter_from (λ j. not (j == length page.acl_rules)) 0
          (handle_add_acl_rule page).acl_rules
        ≡ page.acl_rules =
      filter_from-at (length page.acl_rules) (length page.acl_rules) 0 _ (omega arith)
      ∙ erase_idx-append_length page.acl_rules _ in
    (
      ap (λ (rules : List AclRule). record page { acl_rules = rules })
          (filter_from-at index index 0 page.acl_rules (omega arith)),
      ap (λ (rules : List AclRule). record page { acl_rules = rules }) kept,
    )

map-unedited :
    (f : AclRule → AclRule) (i j : ℕ) (o : Option AclRule)
    → i ≢ j
    → o ≡ Option.map (λ rule. if j == i then f rule else rule) o
map-unedited f i j none h = refl
map-unedited f i j (some rule) h = ground arith

map-edited_suc :
    (f : AclRule → AclRule) (i j : ℕ) (o : Option AclRule)
    → Option.map (λ rule. if j == i then f rule else rule) o
      ≡ Option.map (λ rule. if suc j == suc i then f rule else rule) o
map-edited_suc f i j none = refl
map-edited_suc f i j (some rule) = ground arith

get_elem?-update_at :
    (f : AclRule → AclRule) (rules : List AclRule) (i j : ℕ)
    → get_elem? (update_at f rules i) j
      ≡ Option.map (λ rule. if j == i then f rule else rule) (get_elem? rules j)
get_elem?-update_at f [] i j = refl
get_elem?-update_at f (x ∷ rules) zero zero = refl
get_elem?-update_at f (x ∷ rules) zero (suc j) =
    map-unedited f 0 (suc j) (get_elem? rules j) (omega arith)
get_elem?-update_at f (x ∷ rules) (suc i) zero = map-unedited f (suc i) 0 (some x) (omega arith)
get_elem?-update_at f (x ∷ rules) (suc i) (suc j) =
    get_elem?-update_at f rules i j ∙ map-edited_suc f i j (get_elem? rules j)

length-update_at :
    (f : AclRule → AclRule) (rules : List AclRule) (i : ℕ)
    → length (update_at f rules i) ≡ length rules
length-update_at f [] i = refl
length-update_at f (x ∷ rules) zero = refl
length-update_at f (x ∷ rules) (suc i) = ap suc (length-update_at f rules i)

-- An edit sets the field of the rule at its index, leaves every other rule as it was, and neither adds
-- nor removes one.
pub update_acl_rule_lem :
    (index i : ℕ) (field : RuleField) (page : SettingsPage)
    → (length (update_acl_rule index field page).acl_rules ≡ length page.acl_rules)
      × (get_elem? (update_acl_rule index field page).acl_rules i
          ≡ Option.map
              (λ rule. if i == index then with_field field rule else rule)
              (get_elem? page.acl_rules i))
unfolding update_acl_rule
update_acl_rule_lem index i field page =
    let edited = map_from-at (with_field field) index index 0 page.acl_rules (omega arith) in
    (
      ap length edited ∙ length-update_at (with_field field) page.acl_rules index,
      ap (λ (rules : List AclRule). get_elem? rules i) edited
          ∙ get_elem?-update_at (with_field field) page.acl_rules index i,
    )

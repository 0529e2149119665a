-- ===== src/Pages/Search.antt =====
-- Lemmas on the searches of the pages.
use karadul.Base.{
  ◌≡◌, refl, Bool, true, List, [], ◌∷◌, ◌++◌, arith, filter, Text, starts_with, includes,
}

starts_with-append : (s t rest : Text) → starts_with s (t ++ rest) ≡ true → starts_with s t ≡ true
starts_with-append s [] rest h = refl
starts_with-append [] (y ∷ t) rest h = cc
starts_with-append (x ∷ s) (y ∷ t) rest h = ground (arith, starts_with-append s t rest)

pub includes-append : (s t rest : Text) → includes s (t ++ rest) ≡ true → includes s t ≡ true
includes-append [] t rest h = starts_with-append [] t rest h
includes-append (x ∷ s) t rest h =
    ground (arith, starts_with-append (x ∷ s) t rest, includes-append s t rest)

pub filter-filter {ℓ} :
    {A : Type ℓ} (p q : A → Bool) (xs : List A)
    → ((x : A) → p x ≡ true → q x ≡ true)
    → filter p (filter q xs) ≡ filter p xs
filter-filter p q [] h = refl
filter-filter p q (x ∷ xs) h = ground (arith, filter-filter p q xs h, h x)

pub filter-all {ℓ} :
    {A : Type ℓ} (p : A → Bool) (xs : List A) → ((x : A) → p x ≡ true) → filter p xs ≡ xs
filter-all p [] h = refl
filter-all p (x ∷ xs) h = ground (arith, filter-all p xs h, h x)

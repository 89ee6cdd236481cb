-- ===== src/Sql/Bags.antt =====
-- Lists up to their order under `keep`, and with what can be read of them.
use mathlib.Core.List.{Perm, filter_map}
use mathlib.Core.List.Perm
use reth_crawler.Prelude.{
  ◌≡◌, refl, Bool, none, some, List, [], ◌∷◌, map, arith, keep, if◌then◌else◌,
}

module _ {ℓ} {A : Type ℓ} where
  keep-filter_map :
      (p : A → Bool) (xs : List A) → keep p xs ≡ filter_map (λ x. if p x then some x else none) xs
  unfolding filter_map
  keep-filter_map p [] = refl
  keep-filter_map p (x ∷ xs) = ground (arith, keep-filter_map p xs)

  pub keep-Perm : (p : A → Bool) {xs ys : List A} → Perm xs ys → Perm (keep p xs) (keep p ys)
  keep-Perm p {xs} {ys} h =
      rw (keep-filter_map p xs, keep-filter_map p ys)
        (Perm.filter_map (λ x. if p x then some x else none) h)

module _ {ℓ κ} {A : Type ℓ} {B : Type κ} where
  pub keep-map :
      (p : B → Bool) (f : A → B) (xs : List A) → keep p (map f xs) ≡ map f (keep (λ x. p (f x)) xs)
  keep-map p f [] = refl
  keep-map p f (x ∷ xs) = ground (arith, keep-map p f xs)

-- ===== src/Sql/Collect.antt =====
-- Reading rows in any order by a closure that may panic.
use mathlib.Core.List.{Perm, filter_map, cons≢nil}
use mathlib.Core.List.Perm
use mathlib.Core.Path.{subst}
use reth_crawler.Prelude.{
  ◌≡◌, refl, sym, ap, ◌∙◌, inl, inr, Bool, true, false, Option, none, some, List, [], ◌∷◌, map, All,
  keep, Outcome, done, panic, Outcome-cases,
}
use reth_crawler.Prelude.Panics.{collect_all}
use reth_crawler.Sql.Bags.{keep-Perm}

module _ {ℓ κ} {X : Type ℓ} {B : Type κ} (f : X → Outcome B) where
  abbrev result : X → Option B
  result x = elim (f x) [ done b ↦ some b | panic ↦ none ]

  abbrev panics : X → Bool
  panics x = elim (f x) [ done b ↦ false | panic ↦ true ]

  collect_all-filter_map :
      (xs : List X) → keep panics xs ≡ [] → collect_all f xs ≡ done (filter_map result xs)
  unfolding collect_all filter_map
  collect_all-filter_map [] h = refl
  collect_all-filter_map (x ∷ xs) h = elim (Outcome-cases (f x)) [
    | inl (b, reads) ↦
        let skipped : keep panics (x ∷ xs) ≡ keep panics xs = rw (reads, panics) refl in
        rw (reads, collect_all-filter_map xs (sym skipped ∙ h), result) refl
    | inr fails ↦
        let kept : keep panics (x ∷ xs) ≡ x ∷ keep panics xs = rw (fails, panics) refl in
        absurd (cons≢nil (sym kept ∙ h))
  ]

  module _ {ι} {A : Type ι} (g : A → X) (h : A → B) where
    panics-map : (xs : List A) → All (λ a. f (g a) ≡ done (h a)) xs → keep panics (map g xs) ≡ []
    panics-map [] reads = refl
    panics-map (a ∷ xs) reads = rw (reads.0, panics) (panics-map xs reads.1)

    result-map :
        (xs : List A) → All (λ a. f (g a) ≡ done (h a)) xs → filter_map result (map g xs) ≡ map h xs
    unfolding filter_map
    result-map [] reads = refl
    result-map (a ∷ xs) reads = rw (reads.0, result) (ap (◌∷◌ (h a)) (result-map xs reads.1))

    -- If every value that the list may hold is read, the list is, whatever its order.
    pub collect_all-Perm :
        (found : List X) (xs : List A)
        → All (λ a. f (g a) ≡ done (h a)) xs
        → Perm found (map g xs)
        → (out : List B) × (collect_all f found ≡ done out) × Perm out (map h xs)
    collect_all-Perm found xs reads same =
        let quiet : keep panics found ≡ [] =
          Perm.eq-nil
            (subst (Perm (keep panics found)) (panics-map xs reads) (keep-Perm panics same)) in
        (
          filter_map result found,
          collect_all-filter_map found quiet,
          subst (Perm (filter_map result found)) (result-map xs reads)
              (Perm.filter_map result same),
        )

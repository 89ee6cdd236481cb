-- ===== src/PeerDb/Subsets.antt =====
-- Which peers stand in a collection after others were added.
use mathlib.Core.List.{
  Subset, Subset-trans, Subset-refl, cons-subset, subset-cons_of_subset, subset-append_right,
  append_assoc, mem-cons_self, perm_middle,
}
use mathlib.Core.List.Perm
use reth_crawler.Prelude.{
  inl, inr, Bool, not, List, [], ◌∷◌, ◌++◌, keep, Bool-cases, ◌==◌, list_eq, nat_eq,
}
use reth_crawler.Types.{PeerData}
use reth_crawler.PeerDb.Collection.{upsert, upsert_all}

module _ {ℓ} {A : Type ℓ} where
  pub keep-subset : (test : A → Bool) (xs : List A) → Subset (keep test xs) xs
  keep-subset test [] = Subset-refl []
  keep-subset test (x ∷ xs) = elim (Bool-cases (test x)) [
    | inl passes ↦
        rw passes (cons-subset.1 (mem-cons_self, subset-cons_of_subset x (keep-subset test xs)))
    | inr drops ↦ rw drops (subset-cons_of_subset x (keep-subset test xs))
  ]

  pub append-subset : (xs ys zs : List A) → Subset xs zs → Subset ys zs → Subset (xs ++ ys) zs
  append-subset [] ys zs h k = k
  append-subset (x ∷ xs) ys zs h k =
      let (here, rest) = cons-subset.0 h in cons-subset.1 (here, append-subset xs ys zs rest k)

  subset-append_both : (xs ys zs : List A) → Subset ys zs → Subset (xs ++ ys) (xs ++ zs)
  subset-append_both [] ys zs h = h
  subset-append_both (x ∷ xs) ys zs h =
      cons-subset.1 (mem-cons_self, subset-cons_of_subset x (subset-append_both xs ys zs h))

  pub subset-insert : (xs ys zs : List A) → Subset (xs ++ zs) ((xs ++ ys) ++ zs)
  subset-insert xs ys zs =
      rw append_assoc (subset-append_both xs zs (ys ++ zs) (subset-append_right ys zs))

upsert-subset : (p : PeerData) (ps : List PeerData) → Subset (upsert p ps) (p ∷ ps)
unfolding upsert
upsert-subset p ps =
    cons-subset.1
      (mem-cons_self, subset-cons_of_subset p (keep-subset (λ q. not (q.id == p.id)) ps))

-- Only what was added and what was there.
pub upsert_all-subset :
    (added before : List PeerData) → Subset (upsert_all added before) (added ++ before)
unfolding upsert_all
upsert_all-subset [] before = Subset-refl before
upsert_all-subset (p ∷ ps) before = Subset-trans (upsert_all-subset ps (upsert p before)) (
    Subset-trans (subset-append_both ps (upsert p before) (p ∷ before) (upsert-subset p before))
      (Perm.subset (perm_middle ps before)))

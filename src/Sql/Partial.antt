-- ===== src/Sql/Partial.antt =====
-- Answers that may miss some of what there is, if something went wrong.
use mathlib.Core.List.{
  Perm, Subset, Subset-trans, subset-append_left, map-append, append-nil, filter_map,
  head-eq_of_cons-eq, tail-eq_of_cons-eq, cons≢nil,
}
use mathlib.Core.List.Perm
use mathlib.Core.Path.{subst}
use mathlib.Core.Path.{ap₂}
use reth_crawler.Prelude.{◌≡◌, refl, ◌⊎◌, inl, inr, List, [], ◌∷◌, ◌++◌, map, Option}
use reth_crawler.Types.{PeerData}
use reth_crawler.PeerDb.Collection.{eq_of_perm_singleton}

nil_of_append {ℓ} : {A : Type ℓ} (xs ys : List A) → xs ++ ys ≡ [] → xs ≡ []
nil_of_append [] ys h = refl
nil_of_append (x ∷ xs) ys h = absurd (cons≢nil h)

-- All of these in any order, or, if something went wrong, some of them, each at most as often.
abbrev pub AllOr {ℓ κ} : {A : Type ℓ} → Type κ → List A → List A → Type (ℓ ⊔ κ)
AllOr {A} Wrong out all = Perm out all ⊎ (Wrong × ((rest : List A) × Perm (out ++ rest) all))

pub AllOr-map {ℓ κ ι} :
    {A : Type ℓ} {B : Type κ} (f : A → B) (Wrong : Type ι) (out all : List A)
    → AllOr Wrong out all
    → AllOr Wrong (map f out) (map f all)
AllOr-map f Wrong out all (inl same) = inl (Perm.map f same)
AllOr-map f Wrong out all (inr (wrong, (rest, same))) =
    inr (
      wrong,
      (map f rest, subst (λ l. Perm l (map f all)) (map-append f out rest) (Perm.map f same)),
    )

pub AllOr-Perm {ℓ κ} :
    {A : Type ℓ} (Wrong : Type κ) (out all all' : List A)
    → Perm all all'
    → AllOr Wrong out all
    → AllOr Wrong out all'
AllOr-Perm Wrong out all all' on (inl same) = inl (Perm.trans same on)
AllOr-Perm Wrong out all all' on (inr (wrong, (rest, same))) =
    inr (wrong, (rest, Perm.trans same on))

pub AllOr-subset {ℓ κ} :
    {A : Type ℓ} (Wrong : Type κ) (out all : List A) → AllOr Wrong out all → Subset out all
AllOr-subset Wrong out all (inl same) = Perm.subset same
AllOr-subset Wrong out all (inr (wrong, (rest, same))) =
    Subset-trans (subset-append_left out rest) (Perm.subset same)

pub nil_rest {ℓ κ} :
    {A : Type ℓ} {B : Type κ} (f : A → Option B) (out : List B) → out ++ filter_map f [] ≡ out
unfolding filter_map
nil_rest f out = append-nil out

-- What one peer comes to: it is there alone, or something went wrong and nothing is there.
abbrev pub OneOr {κ} : Type κ → List PeerData → PeerData → Type κ
OneOr Wrong out p = (out ≡ p ∷ []) ⊎ (Wrong × (out ≡ []))

pub AllOr-OneOr {κ} :
    (Wrong : Type κ) (out : List PeerData) (p : PeerData)
    → AllOr Wrong out (p ∷ [])
    → OneOr Wrong out p
AllOr-OneOr Wrong out p (inl same) = inl (eq_of_perm_singleton p out same)
AllOr-OneOr Wrong [] p (inr (wrong, (rest, same))) = inr (wrong, refl)
AllOr-OneOr Wrong (q ∷ out) p (inr (wrong, (rest, same))) =
    let one = eq_of_perm_singleton p (q ∷ (out ++ rest)) same in
    inl (ap₂ ◌∷◌ (head-eq_of_cons-eq one) (nil_of_append out rest (tail-eq_of_cons-eq one)))

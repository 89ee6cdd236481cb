-- ===== src/PeerDb/Merge.antt =====
-- Adding peers of which no two have one id: the order does not matter.
use mathlib.Core.List.{Perm, cons≢nil, perm_middle, tail-eq_of_cons-eq}
use mathlib.Core.Bool.{false≢true}
use mathlib.Core.List.Perm
use mathlib.Core.Path.{subst}
use reth_crawler.Prelude.{
  ◌≡◌, refl, sym, ap, ◌∙◌, inl, inr, Bool, true, false, not, ◌&&◌, List, [], ◌∷◌, ◌++◌, keep, any,
  All, Bool-cases, ◌==◌, list_eq, nat_eq, beq_refl, beq_sound, ◌⊎◌, arith,
}
use reth_crawler.Text.{Text}
use reth_crawler.Sql.Bags.{keep-Perm}
use reth_crawler.Types.{PeerData}
use reth_crawler.PeerDb.Collection.{eq_of_perm_singleton, upsert, upsert_all, Distinct}

-- No peer of the list has the id of `q`.
abbrev pub absent : List PeerData → PeerData → Bool
absent ps q = not (any (λ p. q.id == p.id) ps)

-- The peers that are added, and those before with other ids.
abbrev pub merged : List PeerData → List PeerData → List PeerData
merged added before = added ++ keep (absent added) before

module _ {ℓ} {A : Type ℓ} where
  keep-keep_and : (f g : A → Bool) (xs : List A) → keep f (keep g xs) ≡ keep (λ x. f x && g x) xs
  keep-keep_and f g [] = refl
  keep-keep_and f g (x ∷ xs) = ground (arith, keep-keep_and f g xs)

  keep_same : (f g : A → Bool) (xs : List A) → ((x : A) → f x ≡ g x) → keep f xs ≡ keep g xs
  keep_same f g [] h = refl
  keep_same f g (x ∷ xs) h = rw (h x, keep_same f g xs h) refl

  keep_all : (xs : List A) → keep (λ x. true) xs ≡ xs
  keep_all [] = refl
  keep_all (x ∷ xs) = ap (◌∷◌ x) (keep_all xs)

  keep_none : (f : A → Bool) (xs : List A) → any f xs ≡ false → keep f xs ≡ []
  keep_none f [] h = refl
  keep_none f (x ∷ xs) h = ground (arith, h, keep_none f xs)

  none-keep : (f : A → Bool) (xs : List A) → keep f xs ≡ [] → any f xs ≡ false
  none-keep f [] h = refl
  none-keep f (x ∷ xs) h = elim (Bool-cases (f x)) [
    | inl here ↦
        let kept : keep f (x ∷ xs) ≡ x ∷ keep f xs = rw here refl in
        absurd (cons≢nil (sym kept ∙ h))
    | inr away ↦
        let dropped : keep f (x ∷ xs) ≡ keep f xs = rw away refl in
        rw away (none-keep f xs (sym dropped ∙ h))
  ]

  none-Perm : (f : A → Bool) (xs ys : List A) → Perm xs ys → any f ys ≡ false → any f xs ≡ false
  none-Perm f xs ys same h =
      none-keep f xs (Perm.eq-nil (subst (Perm (keep f xs)) (keep_none f ys h) (keep-Perm f same)))

  pub any-Perm : (f : A → Bool) (xs ys : List A) → Perm xs ys → any f xs ≡ any f ys
  any-Perm f xs ys same = elim (Bool-cases (any f ys)) [
    | inr away ↦ none-Perm f xs ys same away ∙ sym away
    | inl there ↦ elim (Bool-cases (any f xs)) [
      | inl here ↦ here ∙ sym there
      | inr gone ↦ absurd (false≢true (sym (none-Perm f ys xs (Perm.symm same) gone) ∙ there))
    ]
  ]

-- At most one peer has an id.
Single : Text → List PeerData → Type 0
Single id ps =
    (keep (λ q. q.id == id) ps ≡ []) ⊎ ((p : PeerData) × (keep (λ q. q.id == id) ps ≡ p ∷ []))

All-none :
    (id : Text) (ps : List PeerData)
    → keep (λ q. q.id == id) ps ≡ []
    → All (λ q. (q.id == id) ≡ false) ps
All-none id [] h = tt
All-none id (p ∷ ps) h = elim (Bool-cases (p.id == id)) [
  | inl here ↦
      let kept : keep (λ q. q.id == id) (p ∷ ps) ≡ p ∷ keep (λ q. q.id == id) ps = rw here refl in
      absurd (cons≢nil (sym kept ∙ h))
  | inr away ↦
      let dropped : keep (λ q. q.id == id) (p ∷ ps) ≡ keep (λ q. q.id == id) ps = rw away refl in
      (away, All-none id ps (sym dropped ∙ h))
]

none-All :
    (id : Text) (ps : List PeerData)
    → All (λ q. (q.id == id) ≡ false) ps
    → keep (λ q. q.id == id) ps ≡ []
none-All id [] h = refl
none-All id (p ∷ ps) h = rw h.0 (none-All id ps h.1)

Distinct-Single : (ps : List PeerData) → Distinct ps → (id : Text) → Single id ps
unfolding Single
Distinct-Single [] h id = inl refl
Distinct-Single (p ∷ ps) h id = elim (Bool-cases (p.id == id)) [
  | inr away ↦ rw away (Distinct-Single ps h.1 id)
  | inl here ↦
      let others : keep (λ q. q.id == id) ps ≡ [] =
        rw (← beq_sound p.id id here) (none-All p.id ps h.0) in
      rw (here, others) (inr (p, refl))
]

Single-Distinct : (ps : List PeerData) → ((id : Text) → Single id ps) → Distinct ps
unfolding Single
Single-Distinct [] h = tt
Single-Distinct (p ∷ ps) h =
    let kept : keep (λ q. q.id == p.id) (p ∷ ps) ≡ p ∷ keep (λ q. q.id == p.id) ps =
      rw (beq_refl p.id) refl in
    let others : keep (λ q. q.id == p.id) ps ≡ [] = elim (h p.id) [
      | inl none_there ↦ absurd (cons≢nil (sym kept ∙ none_there))
      | inr (q, one) ↦ tail-eq_of_cons-eq (sym kept ∙ one)
    ] in
    (
      All-none p.id ps others,
      Single-Distinct ps (λ id. elim (Bool-cases (p.id == id)) [
        | inr away ↦
            let dropped : keep (λ q. q.id == id) (p ∷ ps) ≡ keep (λ q. q.id == id) ps =
              rw away refl in
            elim (h id) [
              | inl none_there ↦ inl (sym dropped ∙ none_there)
              | inr (q, one) ↦ inr (q, sym dropped ∙ one)
            ]
        | inl here ↦
            inl (subst (λ i. keep (λ q. q.id == i) ps ≡ []) (beq_sound p.id id here) others)
      ]),
    )

-- That no id stands twice does not depend on the order.
pub Distinct-Perm : (ps qs : List PeerData) → Perm ps qs → Distinct qs → Distinct ps
unfolding Single
Distinct-Perm ps qs same h = Single-Distinct ps (λ id.
    let kept = keep-Perm (λ q. q.id == id) same in
    elim (Distinct-Single qs h id) [
      | inl none_there ↦
          inl (Perm.eq-nil (subst (Perm (keep (λ q. q.id == id) ps)) none_there kept))
      | inr (p, one) ↦
          inr (p, eq_of_perm_singleton p _ (subst (Perm (keep (λ q. q.id == id) ps)) one kept))
    ])

absent_of_others :
    (p : PeerData) (ps : List PeerData)
    → All (λ q. (q.id == p.id) ≡ false) ps
    → any (λ q. p.id == q.id) ps ≡ false
absent_of_others p [] h = refl
absent_of_others p (q ∷ ps) h = elim (Bool-cases (p.id == q.id)) [
  | inr apart ↦ rw apart (absent_of_others p ps h.1)
  | inl same ↦
      let there : (q.id == p.id) ≡ true = rw (beq_sound p.id q.id same) (beq_refl q.id) in
      absurd (false≢true (sym h.0 ∙ there))
]

keep-absent-cons :
    (p : PeerData) (ps before : List PeerData)
    → keep (absent ps) (keep (λ q. not (q.id == p.id)) before) ≡ keep (absent (p ∷ ps)) before
keep-absent-cons p ps before =
    keep-keep_and (absent ps) (λ q. not (q.id == p.id)) before
    ∙ keep_same (λ q. absent ps q && not (q.id == p.id)) (absent (p ∷ ps)) before
        (λ q. ground arith)

-- Adding peers of which no two have one id merges them with those that were there.
pub upsert_all-merged :
    (added before : List PeerData)
    → Distinct added
    → Perm (upsert_all added before) (merged added before)
unfolding upsert_all upsert
upsert_all-merged [] before h = rw (keep_all before) (Perm.refl before)
upsert_all-merged (p ∷ ps) before h =
    let later = upsert_all-merged ps (upsert p before) h.1 in
    let first : keep (absent ps) (upsert p before) ≡ p ∷ keep (absent (p ∷ ps)) before =
      rw (absent_of_others p ps h.0) (ap (◌∷◌ p) (keep-absent-cons p ps before)) in
    Perm.trans (subst (λ l. Perm (upsert_all ps (upsert p before)) (ps ++ l)) first later)
      (perm_middle ps (keep (absent (p ∷ ps)) before))

-- ===== src/PeerDb/Collection.antt =====
-- What a peer database keeps: a collection of peers, each under its id.
use mathlib.Core.List.{Perm, perm-replicate}
use mathlib.Core.List.Perm
use mathlib.Core.Bool.{false≢true}
use reth_crawler.Prelude.{
  ◌≡◌, refl, inl, inr, Bool, true, false, not, List, [], ◌∷◌, ◌++◌, map, All, All-keep, any, keep,
  ◌==◌, list_eq, nat_eq, beq_sound, arith, if◌then◌else◌, Bool-cases,
}
use reth_crawler.Types.{PeerData}
use reth_crawler.Sql.Conflict.{change_or_add}

-- The collection after a peer is added: it replaces the peer with its id.
unfoldable pub upsert : PeerData → List PeerData → List PeerData
upsert p ps = p ∷ keep (λ q. not (q.id == p.id)) ps

-- The collection after peers are added, one after another.
unfoldable pub upsert_all : List PeerData → List PeerData → List PeerData
upsert_all [] ps = ps
upsert_all (peer ∷ peers) ps = upsert_all peers (upsert peer ps)

pub upsert_all-append :
    (xs ys ps : List PeerData) → upsert_all (xs ++ ys) ps ≡ upsert_all ys (upsert_all xs ps)
unfolding upsert_all
upsert_all-append [] ys ps = refl
upsert_all-append (x ∷ xs) ys ps = upsert_all-append xs ys (upsert x ps)

pub PeerData-set : IsSet PeerData
PeerData-set = hlevel

pub eq_of_perm_singleton : (x : PeerData) (xs : List PeerData) → Perm xs (x ∷ []) → xs ≡ x ∷ []
eq_of_perm_singleton x xs h = (perm-replicate PeerData-set 1 x).0 h

-- No id stands twice.
abbrev pub Distinct : List PeerData → Type 0
Distinct [] = Unit
Distinct (p ∷ ps) = All (λ q. (q.id == p.id) ≡ false) ps × Distinct ps

keep-Distinct :
    (test : PeerData → Bool) (ps : List PeerData) → Distinct ps → Distinct (keep test ps)
keep-Distinct test [] h = tt
keep-Distinct test (p ∷ ps) h = elim (Bool-cases (test p)) [
  | inl passes ↦
      rw passes (All-keep (λ q. (q.id == p.id) ≡ false) test ps h.0, keep-Distinct test ps h.1)
  | inr drops ↦ rw drops (keep-Distinct test ps h.1)
]

module _ (p : PeerData) where
  -- No peer of the list has the id of `p`.
  abbrev Others : List PeerData → Type 0
  Others ps = All (λ q. (q.id == p.id) ≡ false) ps

  keep-Others : (ps : List PeerData) → Others ps → keep (λ q. not (q.id == p.id)) ps ≡ ps
  keep-Others [] h = refl
  keep-Others (q ∷ ps) h = rw (h.0, keep-Others ps h.1) refl

  put-Others : (ps : List PeerData) → Others ps → map (λ q. if q.id == p.id then p else q) ps ≡ ps
  put-Others [] h = refl
  put-Others (q ∷ ps) h = rw (h.0, put-Others ps h.1) refl

  Others-absent : (ps : List PeerData) → any (λ q. q.id == p.id) ps ≡ false → Others ps
  Others-absent [] h = tt
  Others-absent (q ∷ ps) h = (ground arith, Others-absent ps (ground arith))

  Others-same :
      (q : PeerData) (ps : List PeerData)
      → q.id ≡ p.id
      → All (λ r. (r.id == q.id) ≡ false) ps
      → Others ps
  Others-same q ps e h = rw (← e) h

  put_in :
      (ps : List PeerData)
      → Distinct ps
      → any (λ q. q.id == p.id) ps ≡ true
      → Perm (map (λ q. if q.id == p.id then p else q) ps) (upsert p ps)
  unfolding upsert
  put_in [] h found = absurd (false≢true found)
  put_in (q ∷ ps) h found = elim (Bool-cases (q.id == p.id)) [
    | inl same ↦
        let others = Others-same q ps (beq_sound q.id p.id same) h.0 in
        rw (same, keep-Others ps others, put-Others ps others) (Perm.refl (p ∷ ps))
    | inr other ↦
        rw other (
          Perm.trans (Perm.cons q (put_in ps h.1 (ground (arith, found, other)))) (Perm.swap p q _))
  ]

  -- PostgreSQL's way to add a peer leaves the same collection.
  pub change_or_add-upsert :
      (ps : List PeerData)
      → Distinct ps
      → Perm (change_or_add (λ q. q.id == p.id) (λ q. p) p ps) (upsert p ps)
  unfolding change_or_add upsert
  change_or_add-upsert ps h = elim (Bool-cases (any (λ q. q.id == p.id) ps)) [
    | inl here ↦ rw here (put_in ps h here)
    | inr away ↦ rw (away, keep-Others ps (Others-absent ps away)) (Perm.refl (p ∷ ps))
  ]

  others : (ps : List PeerData) → Others (keep (λ q. not (q.id == p.id)) ps)
  others [] = tt
  others (q ∷ ps) = elim (Bool-cases (q.id == p.id)) [
    | inl same ↦ rw same (others ps)
    | inr other ↦ rw other (other, others ps)
  ]

  pub upsert-Distinct : (ps : List PeerData) → Distinct ps → Distinct (upsert p ps)
  unfolding upsert
  upsert-Distinct ps h = (others ps, keep-Distinct (λ q. not (q.id == p.id)) ps h)

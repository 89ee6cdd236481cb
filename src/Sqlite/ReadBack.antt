-- ===== src/Sqlite/ReadBack.antt =====
-- What is found in `SqlPeerDB` under an id.
use mathlib.Core.Path.{subst}
use mathlib.Core.Bool.{false≢true}
use reth_crawler.Prelude.{
  ◌≡◌, refl, sym, ap, ◌∙◌, inl, inr, Bool, true, false, not, List, [], ◌∷◌, map, ok, All, All-keep,
  FailsOr, FailsOr-mono, keep, ◌==◌, list_eq, nat_eq, beq_refl, beq_sound, arith, Bool-cases,
}
use reth_crawler.Text.{Text}
use reth_crawler.Types.{PeerData, InRange, sql_query_item_error}
use reth_crawler.Sql.Stepping.{IsStepTable, Replaces}
use reth_crawler.Sqlite.{Driver, table, key, schema, add_peer, node_by_id}
use reth_crawler.Sqlite.Rows.{reread}
use reth_crawler.PeerDb.Collection.{upsert}
use reth_crawler.Sql.Partial.{AllOr, AllOr-OneOr}
use reth_crawler.Sqlite.Steps.{IdStepFails, FoundAlone}
use reth_crawler.Sqlite.Refines.{Holds, add_peer-Holds, node_by_id-Holds}

module _ {ℓ} {A : Type ℓ} where
  keep-keep-not : (test : A → Bool) (xs : List A) → keep test (keep (λ x. not (test x)) xs) ≡ []
  keep-keep-not test [] = refl
  keep-keep-not test (x ∷ xs) = ground (arith, keep-keep-not test xs)

  keep-keep :
      (f g : A → Bool) (xs : List A)
      → ((x : A) → f x ≡ true → g x ≡ true)
      → keep f (keep g xs) ≡ keep f xs
  keep-keep f g [] h = refl
  keep-keep f g (x ∷ xs) h = ground (arith, h x, keep-keep f g xs h)

-- Only the added peer is found under its id.
pub keep-upsert_self :
    (p : PeerData) (ps : List PeerData) → keep (λ q. q.id == p.id) (upsert p ps) ≡ p ∷ []
unfolding upsert
keep-upsert_self p ps = rw (beq_refl p.id) (ap (◌∷◌ p) (keep-keep-not (λ q. q.id == p.id) ps))

other_id : (q p id : Text) → (q == id) ≡ true → (p == id) ≡ false → not (q == p) ≡ true
other_id q p id at ne = elim (Bool-cases (q == p)) [
  | inr apart ↦ rw apart
  | inl same ↦
      let there : (p == id) ≡ true = rw (← beq_sound q p same) at in
      absurd (false≢true (sym ne ∙ there))
]

-- Under every other id the same peers are found as before.
pub keep-upsert_ne :
    (p : PeerData) (id : Text) (ps : List PeerData)
    → (p.id == id) ≡ false
    → keep (λ q. q.id == id) (upsert p ps) ≡ keep (λ q. q.id == id) ps
unfolding upsert
keep-upsert_ne p id ps ne =
    rw ne (
      keep-keep (λ q. q.id == id) (λ q. not (q.id == p.id)) ps
        (λ q at. other_id q.id p.id id at ne))

module _ (D : Driver) (t : IsStepTable D.engine table schema)
    (r : Replaces D.engine table key schema t) {A P : Type 0} where
  open D use {Connection}

  -- After a successful `add_peer`, `node_by_id` of the same id fails with an error of the database,
  -- or returns that peer alone, as it is read back, whatever the table held before; it finds
  -- nothing only if a step through the rows fails, whose error `flatten` drops.
  pub node_by_id-add_peer :
      (p : PeerData) (c c' : Connection) (ps : List PeerData)
      → Holds D t c ps
      → All InRange (p ∷ ps)
      → add_peer D {A = A} {P = P} p c ≡ (c', ok tt)
      → FailsOr sql_query_item_error
          (node_by_id D {A = A} {P = P} p.id c')
          (FoundAlone D p.id (reread p) c')
  unfolding upsert
  node_by_id-add_peer p c c' ps h range added =
      let held = add_peer-Holds D t r {A = A} {P = P} p c c' ps h added in
      let in_range : All InRange (upsert p ps) =
        (range.0, All-keep InRange (λ q. not (q.id == p.id)) ps range.1) in
      FailsOr-mono sql_query_item_error _ _ _
        (λ out answer.
          let (found, shown, listed) = answer in
          let alone =
            subst (λ l. AllOr (IdStepFails D p.id c') found (map reread l)) (keep-upsert_self p ps)
              listed in
          (found, shown, AllOr-OneOr (IdStepFails D p.id c') found (reread p) alone))
        (node_by_id-Holds D t {A = A} {P = P} c' (upsert p ps) held in_range p.id)

-- ===== src/Postgres/Refines.antt =====
-- `PostgreSQLPeerDb` keeps the same collection of peers as `SqlPeerDB`.
use mathlib.Core.List.{Perm, map-map}
use mathlib.Core.List.Perm
use mathlib.Core.Path.{subst}
use reth_crawler.Prelude.{
  ℕ, ◌≡◌, refl, sym, ap, ◌∙◌, ◌⊎◌, inl, inr, true, Option, List, [], ◌∷◌, map, ok, err,
  Result-cases, All, All-map, keep, ◌==◌, list_eq, nat_eq, beq_sound, ok_of_map_err, Outcome, done,
}
use reth_crawler.Prelude.Panics.{◌>>=◌, collect_all}
use reth_crawler.Types.{PeerData, ClientData, InRange, postgres_add_item_error, postgres_scan_error}
use reth_crawler.PeerDb.Collection.{upsert, Distinct, change_or_add-upsert, upsert-Distinct}
use reth_crawler.Sql.{
  Row, Condition, always, Selection, star, columns, select, satisfies, project, IsTable,
}
use reth_crawler.Sql.Conflict.{change_or_add-map, change_or_add-Perm, updated, Upserts}
use reth_crawler.Sql.Collect.{collect_all-Perm}
use reth_crawler.Sqlite.Rows.{reread}
use reth_crawler.Postgres.{
  Driver, table, inserted, overwritten, placeholders, params, from_row, client_from_row, read_rows,
  add_peer, all_peers, clients,
}
use reth_crawler.Postgres.Rows.{
  named_client, stored, from_row-stored, client_from_row-stored, updated-stored,
}

keep_all {ℓ} : {A : Type ℓ} (xs : List A) → keep (λ x. true) xs ≡ xs
keep_all [] = refl
keep_all (x ∷ xs) = ap (◌∷◌ x) (keep_all xs)

All-of {ℓ κ} : {A : Type ℓ} {P : A → Type κ} → ((a : A) → P a) → (xs : List A) → All P xs
All-of f [] = tt
All-of f (x ∷ xs) = (f x, All-of f xs)

module _ (D : Driver) where
  open D use {engine, Value, Connection, Error}

  pub read_rows_err :
      {B F : Type 0} (error : Error → F) (read : List Value → Outcome B) (selection : Selection)
      (condition : Condition) (args : List Value) (c : Connection) (e : Error)
      → engine.query (select selection table condition) args c ≡ err e
      → read_rows D error read selection condition args c ≡ done (err (error e))
  unfolding read_rows
  read_rows_err error read selection condition args c e failed = rw (failed, read_rows) refl

module _ (D : Driver) (t : IsTable D.engine table inserted) where
  open D use {engine, Value, Connection, Error, text}

  -- The table holds exactly these peers.
  abbrev pub Serves : Connection → List PeerData → Type 0
  Serves c ps = Perm (t.rows c) (map (stored D) ps)

  same_id : (p q : PeerData) → engine.equal (stored D q "id") (stored D p "id") ≡ (q.id == p.id)
  unfolding stored
  same_id p q = engine.equal-text q.id p.id

  -- A successful `add_peer` leaves the collection in which the peer stands for its id, and every
  -- other peer is as it was. No id stands twice before or after.
  pub add_peer-Serves :
      (u : Upserts D.engine table "id" inserted t) {A S : Type 0} (p : PeerData) (c c' : Connection)
      (ps : List PeerData)
      → Serves c ps
      → Distinct ps
      → add_peer D {A = A} {S = S} p c ≡ (c', ok tt)
      → Serves c' (upsert p ps) × Distinct (upsert p ps)
  unfolding add_peer stored
  add_peer-Serves u p c c' ps h distinct q =
      let after = ap (λ x. x.0) q in
      let ran = ok_of_map_err postgres_add_item_error _ (ap (λ x. x.1) q) in
      let test = λ (row : Row Value). engine.equal (row "id") (stored D p "id") in
      let upserted =
        u.upserts inserted placeholders overwritten (params D p) c c' (λ i. (after i, ran i)) in
      let moved =
        change_or_add-map (stored D) test (updated overwritten (stored D p)) (λ r. r.id == p.id)
          (λ r. p) (same_id p) (λ r e. updated-stored D p r (beq_sound r.id p.id e)) p ps in
      (
        Perm.trans
            (Perm.trans upserted (
              subst (Perm _) moved
                (change_or_add-Perm test (updated overwritten (stored D p)) (stored D p) h)))
            (Perm.map (stored D) (change_or_add-upsert p ps distinct)),
        upsert-Distinct p ps distinct,
      )

  read_rows_ok :
      {B F : Type 0} (error : Error → F) (read : List Value → Outcome B) (selection : Selection)
      (c : Connection) (found : List (List Value)) (out : List B)
      → engine.query (select selection table always) [] c ≡ ok found
      → collect_all read found ≡ done out
      → read_rows D error read selection always [] c ≡ done (ok out)
  unfolding read_rows
  read_rows_ok error read selection c found out got read_out =
      let ran : read_rows D error read selection always [] c
          ≡ (collect_all read found >>= (λ xs. done (ok xs))) =
        rw (got, read_rows) refl in
      ran ∙ ap (λ o. o >>= (λ xs. done (ok xs))) read_out

  -- Reading the whole table: an error of the database, or all the peers as the closure reads them.
  read_rows-Serves :
      {B F : Type 0} (error : Error → F) (read : List Value → Outcome B) (selection : Selection)
      (shown : PeerData → B) (c : Connection) (ps : List PeerData)
      → Serves c ps
      → All (λ p. read (project inserted selection (stored D p)) ≡ done (shown p)) ps
      → ((e : Error) × (read_rows D error read selection always [] c ≡ done (err (error e))))
        ⊎ ((out : List B) × (read_rows D error read selection always [] c ≡ done (ok out))
            × Perm out (map shown ps))
  unfolding read_rows satisfies
  read_rows-Serves error read selection shown c ps h reads =
      elim (Result-cases (engine.query (select selection table always) [] c)) [
        | inr (e, failed) ↦ inl (e, read_rows_err D error read selection always [] c e failed)
        | inl (found, got) ↦
            let rows : Perm (keep (λ row. true) (t.rows c)) (map (stored D) ps) =
              subst (λ l. Perm l (map (stored D) ps)) (sym (keep_all (t.rows c))) h in
            let show = project inserted selection in
            let selected =
              Perm.trans (t.selects selection always [] c found got) (Perm.map show rows) in
            let named = subst (Perm found) (map-map show (stored D) ps) selected in
            let (out, read_out, same) =
              collect_all-Perm read (λ p. show (stored D p)) shown found ps reads named in
            inr (out, read_rows_ok error read selection c found out got read_out, same)
      ]

  module _ {A S : Type 0} (c : Connection) (ps : List PeerData) (h : Serves c ps)
      (page_size : Option ℕ) where
    -- If the numbers of the peers fit their types, `all_peers` does not panic: it returns an error
    -- of the database, or each peer of the collection once, as it is read back.
    pub all_peers-Serves :
        All InRange ps
        → ((e : Error) × (all_peers D {A = A} {S = S} page_size c
              ≡ done (err (postgres_scan_error e))))
          ⊎ ((out : List PeerData) × (all_peers D {A = A} {S = S} page_size c ≡ done (ok out))
              × Perm out (map reread ps))
    unfolding all_peers
    all_peers-Serves range = read_rows-Serves postgres_scan_error (from_row D) star reread c ps h (
        All-map InRange (λ p. from_row D (project inserted star (stored D p)) ≡ done (reread p)) ps
          (from_row-stored D) range)

    -- `clients` does not panic: it returns an error of the database, or for each peer the name of
    -- its client, in the field for the version.
    pub clients-Serves :
        ((e : Error) × (clients D {A = A} {S = S} page_size c ≡ done (err (postgres_scan_error e))))
        ⊎ ((out : List ClientData) × (clients D {A = A} {S = S} page_size c ≡ done (ok out))
            × Perm out (map named_client ps))
    unfolding clients
    clients-Serves =
        read_rows-Serves postgres_scan_error (client_from_row D) (columns ("client_name" ∷ []))
          named_client c ps h (All-of (client_from_row-stored D) ps)

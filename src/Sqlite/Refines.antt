-- ===== src/Sqlite/Refines.antt =====
-- `SqlPeerDB` keeps a collection of peers, each under its id.
use mathlib.Core.List.{Perm, map-map}
use mathlib.Core.List.Perm
use mathlib.Core.Path.{subst}
use reth_crawler.Prelude.{
  ℕ, ◌≡◌, refl, ap, fun_ext, ◌∙◌, true, not, Option, some, List, [], ◌∷◌, map, ok, All, keep, ◌==◌,
  list_eq, nat_eq, FailsOr, FailsOr-map_ok, ok_of_map_err,
}
use reth_crawler.Text.{Text, text_ltb}
use reth_crawler.Types.{PeerData, InRange, sql_add_item_error, sql_scan_error, sql_query_item_error}
use reth_crawler.Sql.{Row, always, equals, greater, question, satisfies}
use reth_crawler.Sql.Stepping.{IsStepTable, Replaces}
use reth_crawler.Sqlite.Steps.{ScanStepFails, SeenStepFails, IdStepFails, IpStepFails}
use reth_crawler.Sql.Partial.{AllOr, AllOr-map}
use reth_crawler.Sql.Bags.{keep-Perm, keep-map}
use reth_crawler.Sqlite.{
  Driver, table, key, schema, inserted, placeholders, params, client, add_peer, all_peers,
  all_active_peers, node_by_id, node_by_ip, clients, active_clients,
}
use reth_crawler.PeerDb.Collection.{upsert}
use reth_crawler.Sqlite.Rows.{reread, stored}
use reth_crawler.Sqlite.Selecting.{answered}

module _ (D : Driver) (t : IsStepTable D.engine table schema) where
  open D use {engine, Value, Connection, Error, text}

  -- The table holds exactly these peers.
  abbrev pub Holds : Connection → List PeerData → Type 0
  Holds c ps = Perm (t.rows c) (map (stored D) ps)

  matches_id :
      (id : Text) (p : PeerData)
      → satisfies engine.values (equals "id" (question 1)) (text id ∷ []) (stored D p)
        ≡ (p.id == id)
  unfolding satisfies stored
  matches_id id p = engine.equal-text p.id id

  matches_ip :
      (ip : Text) (p : PeerData)
      → satisfies engine.values (equals "ip" (question 1)) (text ip ∷ []) (stored D p)
        ≡ (p.address == ip)
  unfolding satisfies stored
  matches_ip ip p = engine.equal-text p.address ip

  seen_after :
      (time : Text) (p : PeerData)
      → satisfies engine.values (greater "last_seen" (question 1)) (text time ∷ []) (stored D p)
        ≡ text_ltb time p.last_seen
  unfolding satisfies stored
  seen_after time p = D.less-text time p.last_seen

  keep_all : (ps : List PeerData) → keep (λ p. true) ps ≡ ps
  keep_all [] = refl
  keep_all (p ∷ ps) = ap (◌∷◌ p) (keep_all ps)

  module _ (r : Replaces D.engine table key schema t) {A P : Type 0} where
    -- A successful `add_peer` leaves the collection in which the peer stands for its id, and every
    -- other peer is as it was.
    pub add_peer-Holds :
        (p : PeerData) (c c' : Connection) (ps : List PeerData)
        → Holds c ps
        → add_peer D {A = A} {P = P} p c ≡ (c', ok tt)
        → Holds c' (upsert p ps)
    unfolding add_peer upsert stored
    add_peer-Holds p c c' ps h q =
        let after = ap (λ x. x.0) q in
        let ran = ok_of_map_err sql_add_item_error _ (ap (λ x. x.1) q) in
        let row = stored D p in
        let others = λ (other : Row Value). not (engine.equal (other "id") (row "id")) in
        let same_id : (other : PeerData) → others (stored D other) ≡ not (other.id == p.id) =
          λ other. ap not (engine.equal-text other.id p.id) in
        let kept : keep others (map (stored D) ps)
            ≡ map (stored D) (keep (λ other. not (other.id == p.id)) ps) =
          keep-map others (stored D) ps
          ∙ ap (λ test. map (stored D) (keep test ps)) (fun_ext same_id) in
        let replaced = r.replaces inserted placeholders (params D p) c c' (λ i. (after i, ran i)) in
        Perm.trans replaced
          (Perm.cons row (subst (Perm (keep others (t.rows c))) kept (keep-Perm others h)))

  module _ {A P : Type 0} (c : Connection) (ps : List PeerData) (h : Holds c ps)
      (range : All InRange ps) where
    -- `all_peers` fails with an error of the database, or returns each peer of the collection once,
    -- as it is read back, in some order; of these some may be missing if a step through the rows
    -- fails, since `flatten` drops its error.
    pub all_peers-Holds :
        (page_size : Option ℕ)
        → FailsOr sql_scan_error
            (all_peers D {A = A} {P = P} page_size c)
            (λ out. AllOr (ScanStepFails D c) out (map reread ps))
    unfolding all_peers satisfies
    all_peers-Holds page_size =
        subst
          (λ l.
            FailsOr sql_scan_error (all_peers D {A = A} {P = P} page_size c)
              (λ out. AllOr (ScanStepFails D c) out (map reread l)))
          (keep_all ps) (answered D t sql_scan_error always [] (λ p. true) c ps (λ p. refl) h range)

    -- `all_active_peers` fails with an error of the database, or returns the peers that were last
    -- seen after the given time; of these some may be missing if a step through the rows fails.
    pub all_active_peers-Holds :
        (time : Text) (page_size : Option ℕ)
        → FailsOr sql_scan_error (all_active_peers D {A = A} {P = P} time page_size c) (λ out.
          AllOr
            (SeenStepFails D time c)
            out
            (map reread (keep (λ p. text_ltb time p.last_seen) ps)))
    unfolding all_active_peers
    all_active_peers-Holds time page_size =
        answered D t sql_scan_error _ _ (λ p. text_ltb time p.last_seen) c ps (seen_after time) h
          range

    -- `node_by_id` fails with an error of the database, or returns the peers with the given id; of
    -- these some may be missing if a step through the rows fails.
    pub node_by_id-Holds :
        (id : Text)
        → FailsOr sql_query_item_error (node_by_id D {A = A} {P = P} id c) (λ out.
          (found : List PeerData) × (out ≡ some found)
          × AllOr (IdStepFails D id c) found (map reread (keep (λ p. p.id == id) ps)))
    unfolding node_by_id
    node_by_id-Holds id =
        FailsOr-map_ok sql_query_item_error some _ _ _ (λ found same. (found, refl, same))
          (answered D t sql_query_item_error _ _ (λ p. p.id == id) c ps (matches_id id) h range)

    -- `node_by_ip` fails with an error of the database, or returns the peers with the given address;
    -- of these some may be missing if a step through the rows fails.
    pub node_by_ip-Holds :
        (ip : Text)
        → FailsOr sql_query_item_error (node_by_ip D {A = A} {P = P} ip c) (λ out.
          (found : List PeerData) × (out ≡ some found)
          × AllOr (IpStepFails D ip c) found (map reread (keep (λ p. p.address == ip) ps)))
    unfolding node_by_ip
    node_by_ip-Holds ip =
        FailsOr-map_ok sql_query_item_error some _ _ _ (λ found same. (found, refl, same))
          (answered D t sql_query_item_error _ _ (λ p. p.address == ip) c ps (matches_ip ip) h
            range)

    -- `active_clients` fails with an error of the database, or returns the client versions of the
    -- peers last seen after the given time, one for each such peer.
    pub active_clients-Holds :
        (time : Text) (page_size : Option ℕ)
        → FailsOr sql_scan_error (active_clients D {A = A} {P = P} time page_size c) (λ out.
          AllOr
            (SeenStepFails D time c)
            out
            (map client (keep (λ p. text_ltb time p.last_seen) ps)))
    unfolding active_clients
    active_clients-Holds time page_size =
        let active = keep (λ p. text_ltb time p.last_seen) ps in
        FailsOr-map_ok sql_scan_error (map client) _ _ _
          (λ found same.
            subst (AllOr _ (map client found)) (map-map client reread active)
              (AllOr-map client _ found _ same))
          (answered D t sql_scan_error _ _ (λ p. text_ltb time p.last_seen) c ps (seen_after time) h
            range)

    -- `clients` fails with an error of the database, or returns the client version of each peer.
    pub clients-Holds :
        (page_size : Option ℕ)
        → FailsOr sql_scan_error
            (clients D {A = A} {P = P} page_size c)
            (λ out. AllOr (ScanStepFails D c) out (map client ps))
    unfolding clients all_peers
    clients-Holds page_size =
        FailsOr-map_ok sql_scan_error (map client) _ _ _
          (λ found same.
            subst (AllOr _ (map client found)) (map-map client reread ps)
              (AllOr-map client _ found _ same))
          (all_peers-Holds page_size)

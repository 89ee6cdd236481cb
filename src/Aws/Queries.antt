-- ===== src/Aws/Queries.antt =====
-- The two queries of `AwsPeerDB` for single peers, on such a collection.
use mathlib.Core.List.{Perm, map-append}
use mathlib.Core.List.Perm
use mathlib.Core.Path.{subst}
use reth_crawler.Prelude.{
  ◌≡◌, refl, ap, fun_ext, ◌∙◌, Bool, Option, none, some, List, ◌++◌, map, String, string_eq, ok,
  All, All-keep, keep, ◌==◌, list_eq, nat_eq, lookup, ok_of_map_err, ok_of_map_ok, FailsOr,
  FailsOr_of_ok, ◌⊎◌, inl, inr, Option-cases,
}
use reth_crawler.Text.{Text}
use reth_crawler.Types.{PeerData, aws_query_item_error}
use reth_crawler.Types.Item.{from_item}
use reth_crawler.Sql.Bags.{keep-Perm, keep-map}
use reth_crawler.Aws.{put_item}
use reth_crawler.Aws.Dynamo.{Dynamo, has, IsDynamoTable}
use reth_crawler.Aws.Methods.{nodes_of, query_nodes, node_by_id, node_by_ip}
use reth_crawler.Aws.Refines.{Stored, read_back, Fits, Stores, map-from_item, same_id}

module _ (D : Dynamo) (d : IsDynamoTable D "peer-id") where
  open D use {attributes, Value, Table, s, equal}

  same_ip :
      (ip : Text) (x : Stored)
      → has D "peer-ip" (λ w. equal w (s ip)) (put_item attributes x.0 x.1) ≡ (x.1.address == ip)
  unfolding put_item lookup
  same_ip ip x = D.equal-s x.1.address ip

  nodes_of-some :
      (found : Option (List (List (String × Value)))) (out : List PeerData)
      → nodes_of D found ≡ some out
      → (nodes : List (List (String × Value))) × (found ≡ some nodes)
        × (map (from_item attributes) nodes ≡ out)
  nodes_of-some none out q = cc
  nodes_of-some (some nodes) out q = (nodes, refl, cc)

  query_nodes-Stores :
      {S P : Type 0} (index : Option String) (name : String) (value : Text) (test : Stored → Bool)
      (t : Table) (ps : List Stored) (out : List PeerData)
      → ((x : Stored) → has D name (λ w. equal w (s value)) (put_item attributes x.0 x.1) ≡ test x)
      → D.Settled t
      → Stores D d t ps
      → All Fits ps
      → query_nodes D {S = S} {P = P} index name value t ≡ ok (some out)
      → (rest : List PeerData) × Perm (out ++ rest) (map read_back (keep test ps))
  unfolding query_nodes
  query_nodes-Stores index name value test t ps out same settled h fits q =
      let (found, ran, shown) = ok_of_map_ok (nodes_of D) _ q in
      let (nodes, some_nodes, read) = nodes_of-some found out shown in
      let ran' = ok_of_map_err aws_query_item_error _ ran in
      let (rest, all) = d.queries index name (s value) t nodes settled (ran' ∙ ap ok some_nodes) in
      let matching = has D name (λ w. equal w (s value)) in
      let kept : keep matching (map (λ x. put_item attributes x.0 x.1) ps)
          ≡ map (λ x. put_item attributes x.0 x.1) (keep test ps) =
        keep-map matching (λ x. put_item attributes x.0 x.1) ps
        ∙ ap (λ f. map (λ x. put_item attributes x.0 x.1) (keep f ps)) (fun_ext same) in
      let items = Perm.trans all (keep-Perm matching h) in
      let mapped = Perm.map (from_item attributes) (subst (Perm (nodes ++ rest)) kept items) in
      let named : map (from_item attributes) (nodes ++ rest)
          ≡ out ++ map (from_item attributes) rest =
        map-append (from_item attributes) nodes rest
        ∙ ap (λ l. l ++ map (from_item attributes) rest) read in
      (
        map (from_item attributes) rest,
        subst (λ l. Perm l (map read_back (keep test ps))) named
            (subst (Perm (map (from_item attributes) (nodes ++ rest)))
              (map-from_item D d (keep test ps) (All-keep Fits test ps fits)) mapped),
      )

  -- Some of these peers, each as often as it stands; the others may be missing.
  abbrev pub SomeOf : List PeerData → List PeerData → Type 0
  SomeOf some_peers all = (rest : List PeerData) × Perm (some_peers ++ rest) all

  query_nodes-FailsOr :
      {S P : Type 0} (index : Option String) (name : String) (value : Text) (test : Stored → Bool)
      (t : Table) (ps : List Stored)
      → ((x : Stored) → has D name (λ w. equal w (s value)) (put_item attributes x.0 x.1) ≡ test x)
      → D.Settled t
      → Stores D d t ps
      → All Fits ps
      → FailsOr aws_query_item_error (query_nodes D {S = S} {P = P} index name value t) (λ out.
        (out ≡ none)
        ⊎ ((found : List PeerData) × (out ≡ some found)
            × SomeOf found (map read_back (keep test ps))))
  unfolding query_nodes
  query_nodes-FailsOr index name value test t ps same settled h fits =
      FailsOr_of_ok aws_query_item_error _ (nodes_of D) _ (λ out q. elim (Option-cases out) [
        | inl nothing ↦ inl nothing
        | inr (found, here) ↦ inr (
          found,
          here,
          query_nodes-Stores index name value test t ps found same settled h fits (q ∙ ap ok here),
        )
      ])

  module _ {S P : Type 0} (t : Table) (ps : List Stored) (settled : D.Settled t)
      (h : Stores D d t ps) (fits : All Fits ps) where
    -- Of a table whose replicas hold all that was put, `node_by_id` fails with an error of
    -- the database, or returns no list, or some of the peers with the given id, without their
    -- architectures, each as often as it stands.
    pub node_by_id-Stores :
        (id : Text)
        → FailsOr aws_query_item_error (node_by_id D {S = S} {P = P} id t) (λ out.
          (out ≡ none)
          ⊎ ((found : List PeerData) × (out ≡ some found)
              × SomeOf found (map read_back (keep (λ x. x.1.id == id) ps))))
    unfolding node_by_id
    node_by_id-Stores id =
        query_nodes-FailsOr {S = S} {P = P} none "peer-id" id (λ x. x.1.id == id) t ps
          (same_id D d id) settled h fits

    -- Of a table whose replicas and index hold all that was put, `node_by_ip` fails with an
    -- error of the database, or returns no list, or some of the peers with the given address,
    -- without their architectures, each as often as it stands; the others may be missing.
    pub node_by_ip-Stores :
        (ip : Text)
        → FailsOr aws_query_item_error (node_by_ip D {S = S} {P = P} ip t) (λ out.
          (out ≡ none)
          ⊎ ((found : List PeerData) × (out ≡ some found)
              × SomeOf found (map read_back (keep (λ x. x.1.address == ip) ps))))
    unfolding node_by_ip
    node_by_ip-Stores ip =
        query_nodes-FailsOr {S = S} {P = P} (some "peer-ip-index") "peer-ip" ip
          (λ x. x.1.address == ip) t ps (same_ip ip) settled h fits

-- ===== src/Aws/Refines.antt =====
-- `AwsPeerDB` keeps a collection of peers, each with the region it was stored from.
use mathlib.Core.List.{Perm}
use mathlib.Core.List.Perm
use mathlib.Core.Path.{subst}
use reth_crawler.Prelude.{
  ℕ, ◌≡◌, refl, ap, fun_ext, ◌∙◌, Bool, true, not, Option, some, List, [], ◌∷◌, map, String,
  string_eq, ok, All, All-keep, keep, ◌==◌, list_eq, nat_eq, lookup, ok_of_map_err, ok_of_map_ok,
  FailsOr, FailsOr_of_ok,
}
use reth_crawler.Text.{Text, text_ltb}
use reth_crawler.Types.{PeerData, InRange, aws_add_item_error, aws_scan_error}
use reth_crawler.Types.Item.{from_item}
use reth_crawler.Sql.Bags.{keep-Perm, keep-map}
use reth_crawler.Aws.{put_item}
use reth_crawler.Aws.RoundTrip.{from_item-put_item}
use reth_crawler.Aws.Dynamo.{Dynamo, Filter, unfiltered, greater, has, passes, IsDynamoTable}
use reth_crawler.Aws.Methods.{add_peer, scan_all, all_peers, all_active_peers}

-- A peer, and the region from which it was stored.
abbrev pub Stored : Type 0
Stored = Text × PeerData

-- A peer as it is read back: its architecture is lost.
abbrev pub read_back : Stored → PeerData
read_back x = record x.1 { client_arch = [] }

abbrev pub Fits : Stored → Type 0
Fits x = InRange x.1

keep_all {ℓ} : {A : Type ℓ} (xs : List A) → keep (λ x. true) xs ≡ xs
keep_all [] = refl
keep_all (x ∷ xs) = ap (◌∷◌ x) (keep_all xs)

module _ (D : Dynamo) (d : IsDynamoTable D "peer-id") where
  open D use {attributes, Value, Table, Error, s, less, equal}

  -- The table holds exactly these peers.
  abbrev pub Stores : Table → List Stored → Type 0
  Stores t ps = Perm (d.items t) (map (λ x. put_item attributes x.0 x.1) ps)

  pub map-from_item :
      (ps : List Stored)
      → All Fits ps
      → map (from_item attributes) (map (λ x. put_item attributes x.0 x.1) ps) ≡ map read_back ps
  map-from_item [] h = refl
  map-from_item (x ∷ ps) h =
      rw (from_item-put_item attributes x.0 x.1 h.0) (ap (◌∷◌ (read_back x)) (map-from_item ps h.1))

  scan_all-Stores :
      {S P : Type 0} (filter : Filter Value) (test : Stored → Bool) (page_size : Option ℕ)
      (t : Table) (ps : List Stored) (out : List PeerData)
      → ((x : Stored) → passes D filter (put_item attributes x.0 x.1) ≡ test x)
      → D.Settled t
      → Stores t ps
      → All Fits ps
      → scan_all D {S = S} {P = P} (from_item attributes) filter page_size t ≡ ok out
      → Perm out (map read_back (keep test ps))
  unfolding scan_all
  scan_all-Stores filter test page_size t ps out same settled h fits q =
      let (found, ran, shown) = ok_of_map_ok (map (from_item attributes)) _ q in
      let scanned = d.scans filter _ t found settled (ok_of_map_err aws_scan_error _ ran) in
      let kept : keep (passes D filter) (map (λ x. put_item attributes x.0 x.1) ps)
          ≡ map (λ x. put_item attributes x.0 x.1) (keep test ps) =
        keep-map (passes D filter) (λ x. put_item attributes x.0 x.1) ps
        ∙ ap (λ f. map (λ x. put_item attributes x.0 x.1) (keep f ps)) (fun_ext same) in
      let items = Perm.trans scanned (keep-Perm (passes D filter) h) in
      let read = Perm.map (from_item attributes) (subst (Perm found) kept items) in
      subst (λ l. Perm l (map read_back (keep test ps))) shown
        (subst (Perm (map (from_item attributes) found))
          (map-from_item (keep test ps) (All-keep Fits test ps fits)) read)

  seen_after :
      (time : Text) (x : Stored)
      → passes D (greater "last_seen" (s time)) (put_item attributes x.0 x.1)
        ≡ text_ltb time x.1.last_seen
  unfolding put_item lookup
  seen_after time x = D.less-s time x.1.last_seen

  pub same_id :
      (id : Text) (x : Stored)
      → has D "peer-id" (λ w. equal w (s id)) (put_item attributes x.0 x.1) ≡ (x.1.id == id)
  unfolding put_item lookup
  same_id id x = D.equal-s x.1.id id

  item-id :
      (region : Text) (p : PeerData)
      → lookup "peer-id" (put_item attributes region p) ≡ some (s p.id)
  unfolding put_item lookup
  item-id region p = refl

  -- A successful `add_peer` leaves the collection in which the peer, stored from this region, stands
  -- for its id, and every other peer is as it was.
  pub add_peer-Stores :
      {S P : Type 0} (p : PeerData) (t t' : Table) (ps : List Stored)
      → Stores t ps
      → add_peer D {S = S} {P = P} p t ≡ (t', ok tt)
      → Stores t' ((D.region, p) ∷ keep (λ x. not (x.1.id == p.id)) ps)
  unfolding add_peer
  add_peer-Stores p t t' ps h q =
      let after = ap (λ x. x.0) q in
      let ran = ok_of_map_err aws_add_item_error _ (ap (λ x. x.1) q) in
      let others =
        λ (other : List (String × Value)). not (has D "peer-id" (λ w. equal w (s p.id)) other) in
      let put =
        d.puts (put_item attributes D.region p) (s p.id) t t' (item-id D.region p)
          (λ i. (after i, ran i)) in
      let kept : keep others (map (λ x. put_item attributes x.0 x.1) ps)
          ≡ map (λ x. put_item attributes x.0 x.1) (keep (λ x. not (x.1.id == p.id)) ps) =
        keep-map others (λ x. put_item attributes x.0 x.1) ps
        ∙ ap (λ f. map (λ x. put_item attributes x.0 x.1) (keep f ps))
            (fun_ext (λ x. ap not (same_id p.id x))) in
      Perm.trans put (
        Perm.cons (put_item attributes D.region p)
          (subst (Perm (keep others (d.items t))) kept (keep-Perm others h)))

  scan_all-FailsOr :
      {S P : Type 0} (filter : Filter Value) (test : Stored → Bool) (page_size : Option ℕ)
      (t : Table) (ps : List Stored)
      → ((x : Stored) → passes D filter (put_item attributes x.0 x.1) ≡ test x)
      → D.Settled t
      → Stores t ps
      → All Fits ps
      → FailsOr aws_scan_error
          (scan_all D {S = S} {P = P} (from_item attributes) filter page_size t)
          (λ out. Perm out (map read_back (keep test ps)))
  unfolding scan_all
  scan_all-FailsOr filter test page_size t ps same settled h fits =
      FailsOr_of_ok aws_scan_error _ (map (from_item attributes)) _
        (λ out q. scan_all-Stores filter test page_size t ps out same settled h fits q)

  module _ {S P : Type 0} (t : Table) (ps : List Stored) (settled : D.Settled t) (h : Stores t ps)
      (fits : All Fits ps) (page_size : Option ℕ) where
    -- Of a table whose replicas hold all that was put, `all_peers` fails with an error of the
    -- database, or returns each peer of the collection once, without its architecture,
    -- whatever the page size.
    pub all_peers-Stores :
        FailsOr aws_scan_error
          (all_peers D {S = S} {P = P} page_size t)
          (λ out. Perm out (map read_back ps))
    unfolding all_peers
    all_peers-Stores =
        subst
          (λ l.
            FailsOr aws_scan_error (all_peers D {S = S} {P = P} page_size t)
              (λ out. Perm out (map read_back l)))
          (keep_all ps)
          (scan_all-FailsOr {S = S} {P = P} unfiltered (λ x. true) page_size t ps (λ x. refl)
            settled h fits)

    -- Of a table whose replicas hold all that was put, `all_active_peers` fails with an error
    -- of the database, or returns the peers that were last seen after the given time, without
    -- their architectures, whatever the page size.
    pub all_active_peers-Stores :
        (time : Text)
        → FailsOr aws_scan_error
            (all_active_peers D {S = S} {P = P} time page_size t)
            (λ out. Perm out (map read_back (keep (λ x. text_ltb time x.1.last_seen) ps)))
    unfolding all_active_peers
    all_active_peers-Stores time =
        scan_all-FailsOr {S = S} {P = P} (greater "last_seen" (s time))
          (λ x. text_ltb time x.1.last_seen) page_size t ps (seen_after time) settled h fits

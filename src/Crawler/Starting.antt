-- ===== src/Crawler/Starting.antt =====
-- When the crawler starts: exactly when the ports of its nodes fit, if all services answer.
use reth_crawler.Prelude.{
  Eq, ℕ, zero, suc, ◌+◌, ◌<◌, ◌≤◌, ◌≡◌, refl, ap, ◌∙◌, ◌↔◌, Bool, true, some, List, [], ◌∷◌, ◌++◌,
  ok, done, arith, length, get_elem?-lt, nat_eq,
}
use reth_crawler.Text.Decimal.{u16_bound}
use reth_crawler.Handshake.{Reth}
use reth_crawler.BlockHashNum.Lru.{LruCache}
use reth_crawler.BlockHashNum.Presence.{new-Implements}
use reth_crawler.Crawler.{
  Nodes, CrawlerBuilder, CrawlOpts, crawl, configure, NetworkConfig, DiscoveryConfig, Start,
  NodeAnswers, Vecs, u16_add, network_config, discovery_config, start_node, build_node, build_nodes,
}
use reth_crawler.Crawler.Service.{
  UpdateListener, Environment, CrawlerService, new_listener, open_db, listener_at, new_updates,
  same_length, new_service, none_yet, build, start_crawler,
}
use reth_crawler.Crawler.Built.{built_vecs, build-Ports}

module _ {PeerId : Type 0} {R : Reth PeerId} (N : Nodes R) where
  open N use {Provider, Database, default_discovery_port}

  -- Every service of a node starts.
  pub record Answers (a : NodeAnswers N) : Type 0 where
    pub net : N.NetworkHandle
    pub disc : N.Discv4
    pub dnsdisc : N.DnsDiscoveryHandle
    pub starts_network : (c : NetworkConfig N) → a.start_network c ≡ ok net
    pub starts_discv4 : (c : DiscoveryConfig N) → a.start_discv4 c ≡ ok disc
    pub starts_dns : a.start_dns ≡ ok dnsdisc

  -- Everything that is not the crawler's own answers: the endpoint, the nodes, and the databases.
  pub record IsUp (opts : CrawlOpts) (env : Environment N) : Type 0 where
    pub provider : Provider
    pub connects : env.connect opts.eth_rpc_url ≡ ok provider
    pub nodes : (i : ℕ) → Answers (env.nodes i)
    pub db : ℕ → Database
    pub opens : (i : ℕ) → open_db N env opts.local_db i ≡ done (db i)

  u16_add_fits : (a b : ℕ) → a + b < u16_bound → u16_add a b ≡ some (a + b)
  unfolding u16_add
  u16_add_fits a b h = ground arith

  build_node-done :
      (b : CrawlerBuilder) (a : NodeAnswers N) (i : ℕ) (v : Vecs N) (log : List (Start N))
      → Answers a
      → default_discovery_port + i < u16_bound
      → (v' : Vecs N) × ((build_node N b a i v log).1 ≡ done v')
  unfolding build_node start_node
  build_node-done b a i v log up fits = (
    record {
      all_discv4 = v.all_discv4 ++ (up.disc ∷ []);
      all_dnsdisc = v.all_dnsdisc ++ (up.dnsdisc ∷ []);
      all_network = v.all_network ++ (up.net ∷ []);
      all_key = v.all_key ++ (a.key ∷ []);
    },
    rw
        (
          u16_add_fits default_discovery_port i fits,
          up.starts_network (network_config N b a.key (default_discovery_port + i)),
          up.starts_discv4 (discovery_config N b a.key (default_discovery_port + i)),
          up.starts_dns,
          build_node,
          start_node,
        )
        refl,
  )

  build_nodes-done :
      (b : CrawlerBuilder) (nodes : ℕ → NodeAnswers N) (i left : ℕ) (v : Vecs N)
      (log : List (Start N))
      → ((i : ℕ) → Answers (nodes i))
      → default_discovery_port + i + left ≤ u16_bound
      → (v' : Vecs N) × ((build_nodes N b nodes i left v log).1 ≡ done v')
  unfolding build_nodes
  build_nodes-done b nodes i zero v log up fits = (v, refl)
  build_nodes-done b nodes i (suc left) v log up fits =
      let (v1, goes_on) = build_node-done b (nodes i) i v log (up i) (omega arith) in
      let log1 = (build_node N b (nodes i) i v log).0 in
      let ran : build_nodes N b nodes i (suc left) v log
          ≡ build_nodes N b nodes (suc i) left v1 log1 =
        rw (goes_on, build_nodes) refl in
      let (v', ends) = build_nodes-done b nodes (suc i) left v1 log1 up (omega arith) in
      (v', ap (λ o. o.1) ran ∙ ends)

  -- A listener for each index, if the vectors are long enough and the database opens.
  listener_at-done :
      (env : Environment N) (local_db : Bool) (v : Vecs N) (i : ℕ) (db : Database)
      → same_length N v ≡ true
      → i < length v.all_discv4
      → open_db N env local_db i ≡ done db
      → (u : UpdateListener N) × (listener_at N env local_db v i ≡ done u)
  unfolding listener_at new_listener
  listener_at-done env local_db v i db same fits opens =
      let (d, at_d) = get_elem?-lt v.all_discv4 i fits in
      let (s, at_s) = get_elem?-lt v.all_dnsdisc i (ground (arith, same)) in
      let (n, at_n) = get_elem?-lt v.all_network i (ground (arith, same)) in
      let (k, at_k) = get_elem?-lt v.all_key i (ground (arith, same)) in
      (
        record { discv4 = d; dnsdisc = s; network = n; key = k; db = db; p2p_failures = [] },
        rw (at_d, at_s, at_n, at_k, opens, listener_at, new_listener) refl,
      )

  new_updates-done :
      (env : Environment N) (local_db : Bool) (v : Vecs N) (i left : ℕ)
      (us : List (UpdateListener N)) (db : ℕ → Database)
      → same_length N v ≡ true
      → i + left ≤ length v.all_discv4
      → ((i : ℕ) → open_db N env local_db i ≡ done (db i))
      → (us' : List (UpdateListener N)) × (new_updates N env local_db v i left us ≡ done us')
  unfolding new_updates
  new_updates-done env local_db v i zero us db same fits opens = (us, refl)
  new_updates-done env local_db v i (suc left) us db same fits opens =
      let (u, at_u) = listener_at-done env local_db v i (db i) same (omega arith) (opens i) in
      let ran : new_updates N env local_db v i (suc left) us
          ≡ new_updates N env local_db v (suc i) left (us ++ (u ∷ [])) =
        rw (at_u, new_updates) refl in
      let (us', rest) =
        new_updates-done env local_db v (suc i) left (us ++ (u ∷ [])) db same (omega arith) opens in
      (us', ran ∙ rest)

  new_service-done :
      (opts : CrawlOpts) (env : Environment N) (v : Vecs N) (up : IsUp opts env)
      → same_length N v ≡ true
      → (s : CrawlerService N) × (new_service N env opts.local_db v up.provider ≡ done s)
  unfolding new_service
  new_service-done opts env v up same =
      let (us, built) =
        new_updates-done env opts.local_db v 0 (length v.all_discv4) [] up.db same (omega arith)
          up.opens in
      (record { provider = up.provider; updates = us }, rw (same, built, new_service) refl)

  configure-local_db : (opts : CrawlOpts) → (configure opts).local_db ≡ opts.local_db
  unfolding configure
  configure-local_db opts = ground arith

  configure-eth_rpc_url : (opts : CrawlOpts) → (configure opts).eth_rpc_url ≡ some opts.eth_rpc_url
  unfolding configure
  configure-eth_rpc_url opts = refl

  module _ {H U64 : Type 0} ⦃e : Eq H⦄ (L : LruCache H U64) where
    -- If the ports fit, then nothing panics, the assertion on the lengths included.
    starts :
        (opts : CrawlOpts) (env : Environment N)
        → IsUp opts env
        → default_discovery_port + opts.n_nodes ≤ u16_bound
        → (s : CrawlerService N) × ((start_crawler N L (record { command = crawl opts }) env).1
            ≡ done s)
    unfolding start_crawler build
    starts opts env up fits =
        let b = configure opts in
        let (v, built) =
          build_nodes-done b env.nodes 0 opts.n_nodes (none_yet N) [] up.nodes (omega arith) in
        let log = (build_nodes N b env.nodes 0 opts.n_nodes (none_yet N) []).0 in
        let (listens, bound, size, same) =
          built_vecs N b env.nodes opts.n_nodes v log (λ i. (log, built i)) in
        let (service, fresh, stands) = new-Implements L in
        let (s, served) = new_service-done opts env v up same in
        let served' : new_service N env b.local_db v up.provider ≡ done s =
          ap (λ l. new_service N env l v up.provider) (configure-local_db opts) ∙ served in
        (s, rw (up.connects, built, fresh, served', start_crawler) refl)

    -- If the endpoint, the services of the nodes and the databases answer, then the crawler starts
    -- without a panic exactly when the ports of all its nodes are below 2 ^ 16.
    pub start_crawler-done :
        (opts : CrawlOpts) (env : Environment N)
        → IsUp opts env
        → ((s : CrawlerService N) × ((start_crawler N L (record { command = crawl opts }) env).1
              ≡ done s))
          ↔ (default_discovery_port + opts.n_nodes ≤ u16_bound)
    unfolding start_crawler
    start_crawler-done opts env up = (
      λ built.
          let (s, ran) = built in
          let log = (start_crawler N L (record { command = crawl opts }) env).0 in
          (build-Ports N L (configure opts) opts.n_nodes env log s (λ i. (log, ran i))).1,
      starts opts env up,
    )

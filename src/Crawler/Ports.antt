-- ===== src/Crawler/Ports.antt =====
-- The ports of the nodes that `build` starts.
use mathlib.Core.Path.{subst}
use mathlib.Core.List.{append-nil, append_assoc}
use reth_crawler.Prelude.{
  ℕ, zero, suc, ◌+◌, ◌<◌, ◌≤◌, ◌≡◌, refl, sym, ap, ◌∙◌, ◌⊎◌, inl, inr, some, List, [], ◌∷◌, ◌++◌,
  Result-cases, Outcome, done, panic, Outcome-cases, Option-cases, arith, length, length-append,
  done-ne-panic,
}
use reth_crawler.Text.Decimal.{u16_bound}
use reth_crawler.Handshake.{Reth}
use reth_crawler.Crawler.{
  Nodes, CrawlerBuilder, NetworkConfig, DiscoveryConfig, Start, network, discovery, dns, state,
  NodeAnswers, Vecs, u16_add, network_config, discovery_config, start_node, build_node, build_nodes,
}

u16_add-some : (a b c : ℕ) → u16_add a b ≡ some c → (c ≡ a + b) × (a + b < u16_bound)
unfolding u16_add
u16_add-some a b c h = ground arith

-- `start`, and the numbers after it
abbrev pub ports_from : ℕ → ℕ → List ℕ
ports_from port zero = []
ports_from port (suc n) = port ∷ ports_from (suc port) n

module _ {PeerId : Type 0} {R : Reth PeerId} (N : Nodes R) where
  open N use {default_discovery_port}

  -- the ports of the networks that were started
  unfoldable pub ports : List (Start N) → List ℕ
  ports [] = []
  ports (network c ∷ log) = c.listener_port ∷ ports log
  ports (discovery c ∷ log) = ports log
  ports (dns ∷ log) = ports log
  ports (state ∷ log) = ports log

  pub ports-append : (xs ys : List (Start N)) → ports (xs ++ ys) ≡ ports xs ++ ports ys
  unfolding ports
  ports-append [] ys = refl
  ports-append (network c ∷ xs) ys = ap (◌∷◌ c.listener_port) (ports-append xs ys)
  ports-append (discovery c ∷ xs) ys = ports-append xs ys
  ports-append (dns ∷ xs) ys = ports-append xs ys
  ports-append (state ∷ xs) ys = ports-append xs ys

  -- Every vector has grown by the same number.
  pub record Grown (v : Vecs N) (n : ℕ) (v' : Vecs N) : Type 0 where
    pub discv4 : length v'.all_discv4 ≡ length v.all_discv4 + n
    pub dnsdisc : length v'.all_dnsdisc ≡ length v.all_dnsdisc + n
    pub networks : length v'.all_network ≡ length v.all_network + n
    pub keys : length v'.all_key ≡ length v.all_key + n

  started_ports :
      (log : List (Start N)) (c : NetworkConfig N) (d : DiscoveryConfig N)
      → ports (((log ++ (network c ∷ [])) ++ (discovery d ∷ [])) ++ (dns ∷ []))
        ≡ ports log ++ (c.listener_port ∷ [])
  unfolding ports
  started_ports log c d = simp (ports-append, append-nil)

  -- If a run of rounds does not panic, then every vector has grown by one for each, and the networks
  -- listen on the given ports.
  abbrev pub Rounds : ℕ → ℕ → Vecs N → List (Start N) → List (Start N) × Outcome (Vecs N) → Type 0
  Rounds port n v log (log', panic) = Unit
  Rounds port n v log (log', done v') = Grown v n v' × (ports log' ≡ ports log ++ ports_from port n)

  start_node-Rounds :
      (b : CrawlerBuilder) (a : NodeAnswers N) (port : ℕ) (v : Vecs N) (log : List (Start N))
      → Rounds port 1 v log (start_node N b a port v log)
  unfolding start_node ports network_config
  start_node-Rounds b a port v log =
      let net_config = network_config N b a.key port in
      let disc_config = discovery_config N b a.key port in
      elim (Result-cases (a.start_network net_config)) [
        | inr (e, failed) ↦ rw (failed, start_node) tt
        | inl (net, started) ↦ elim (Result-cases (a.start_discv4 disc_config)) [
          | inr (e, failed) ↦ rw (started, failed, start_node) tt
          | inl (disc, spawned) ↦ elim (Result-cases a.start_dns) [
            | inr (e, failed) ↦ rw (started, spawned, failed, start_node) tt
            | inl (dnsdisc, resolved) ↦
                rw (started, spawned, resolved, start_node)
                  (
                    record {
                      discv4 = length-append v.all_discv4 (disc ∷ []);
                      dnsdisc = length-append v.all_dnsdisc (dnsdisc ∷ []);
                      networks = length-append v.all_network (net ∷ []);
                      keys = length-append v.all_key (a.key ∷ []);
                    },
                    started_ports log net_config disc_config,
                  )
          ]
        ]
      ]

  build_node-Rounds :
      (b : CrawlerBuilder) (a : NodeAnswers N) (i : ℕ) (v : Vecs N) (log : List (Start N))
      → Rounds (default_discovery_port + i) 1 v log (build_node N b a i v log)
        × ((v' : Vecs N)
            → (build_node N b a i v log).1 ≡ done v'
            → default_discovery_port + i < u16_bound)
  unfolding build_node
  build_node-Rounds b a i v log = elim (Option-cases (u16_add default_discovery_port i)) [
    | inl overflow ↦ rw (overflow, build_node) (tt, λ v' q. absurd (done-ne-panic (sym q)))
    | inr (port, added) ↦
        let (same, fits) = u16_add-some default_discovery_port i port added in
        rw (added ∙ ap some same, build_node)
          (start_node-Rounds b a (default_discovery_port + i) v log, λ v' q. fits)
  ]

  Rounds-trans :
      (port n : ℕ) (v v1 : Vecs N) (log log1 : List (Start N))
      (out : List (Start N) × Outcome (Vecs N))
      → Rounds port 1 v log (log1, done v1)
      → Rounds (suc port) n v1 log1 out
      → Rounds port (suc n) v log out
  Rounds-trans port n v v1 log log1 (log', panic) one more = tt
  Rounds-trans port n v v1 log log1 (log', done v') (g, now) (g', rest) = (
    record {
      discv4 = omega (arith, g.discv4, g'.discv4);
      dnsdisc = omega (arith, g.dnsdisc, g'.dnsdisc);
      networks = omega (arith, g.networks, g'.networks);
      keys = omega (arith, g.keys, g'.keys);
    },
    rest
        ∙ ap (λ l. l ++ ports_from (suc port) n) now
        ∙ append_assoc (ports log) (port ∷ []) (ports_from (suc port) n),
  )

  pub build_nodes-Rounds :
      (b : CrawlerBuilder) (answers : ℕ → NodeAnswers N) (i left : ℕ) (v : Vecs N)
      (log : List (Start N))
      → Rounds (default_discovery_port + i) left v log (build_nodes N b answers i left v log)
        × ((v' : Vecs N)
            → (build_nodes N b answers i left v log).1 ≡ done v'
            → (left ≡ 0) ⊎ (default_discovery_port + i + left ≤ u16_bound))
  unfolding build_nodes
  build_nodes-Rounds b answers i zero v log = (
    (
      record {
        discv4 = omega arith;
        dnsdisc = omega arith;
        networks = omega arith;
        keys = omega arith;
      },
      sym (append-nil (ports log)),
    ),
    λ v' q. inl refl,
  )
  build_nodes-Rounds b answers i (suc left) v log =
      let (one, fits) = build_node-Rounds b (answers i) i v log in
      let Now = build_node N b (answers i) i v log in
      elim (Outcome-cases Now.1) [
        | inr stops ↦ rw (stops, build_nodes) (tt, λ v' q. absurd (done-ne-panic (sym q)))
        | inl (v1, goes_on) ↦
            let ran : build_nodes N b answers i (suc left) v log
                ≡ build_nodes N b answers (suc i) left v1 Now.0 =
              rw (goes_on, build_nodes) refl in
            let (more, fit) = build_nodes-Rounds b answers (suc i) left v1 Now.0 in
            let next : default_discovery_port + suc i ≡ suc (default_discovery_port + i) =
              omega arith in
            let here =
              subst (λ o. Rounds (default_discovery_port + i) 1 v log (Now.0, o)) goes_on one in
            rw ran (
              Rounds-trans (default_discovery_port + i) left v v1 log Now.0 _ here (
                  subst
                    (λ port.
                      Rounds port left v1 Now.0 (build_nodes N b answers (suc i) left v1 Now.0))
                    next more),
              λ v' q. elim (fit v' q) [
                | inl ends ↦ inr (omega (arith, fits v1 goes_on))
                | inr bound ↦ inr (omega arith)
              ],
            )
      ]

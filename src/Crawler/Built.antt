-- ===== src/Crawler/Built.antt =====
-- What `build` returns: a listener for each node, and the ports of the nodes.
use mathlib.Core.Path.{subst}
use reth_crawler.Crawler.Service.{
  UpdateListener, Environment, CrawlerService, listener_at, new_updates, same_length, new_service,
  build, none_yet,
}
use native.Mathlib.Nat.{zero-add}
use mathlib.Core.List.{append-nil}
use reth_crawler.Prelude.{
  Eq, ℕ, zero, suc, ◌+◌, ◌≤◌, ◌≡◌, refl, sym, ap, ◌∙◌, inl, inr, Bool, true, List, [], ◌∷◌, ◌++◌,
  Result-cases, Outcome, done, panic, Outcome-cases, Option-cases, arith, length, length-append,
  Bool-cases, done-ne-panic, done-injective,
}
use reth_crawler.Text.Decimal.{u16_bound}
use reth_crawler.Handshake.{Reth}
use reth_crawler.Crawler.Ports.{ports, ports-append, ports_from, Rounds, build_nodes-Rounds}
use reth_crawler.BlockHashNum
use reth_crawler.BlockHashNum.Lru.{LruCache}
use reth_crawler.Crawler.{
  Nodes, CrawlerBuilder, Start, state, NodeAnswers, Vecs, network_config, discovery_config,
  build_nodes,
}

no_panic {ℓ κ} :
    {A : Type ℓ} {B : Type κ} {r : A × Outcome B} {a : A} {b : B}
    → r ≡ (a, done b)
    → (a' : A) → ¬ (r ≡ (a', panic))
no_panic q a' p = done-ne-panic (ap (λ o. o.1) (sym q ∙ p))

pair-injective {ℓ κ} :
    {A : Type ℓ} {B : Type κ} {a a' : A} {b b' : B}
    → ◌≡◌ {A = A × B} (a, b) (a', b')
    → (a ≡ a') × (b ≡ b')
pair-injective p = (ap (λ x. x.0) p, ap (λ x. x.1) p)

module _ {PeerId : Type 0} {R : Reth PeerId} (N : Nodes R) where
  open N use {default_discovery_port}

  -- What the loop of `build` leaves.
  pub built_vecs :
      (b : CrawlerBuilder) (nodes : ℕ → NodeAnswers N) (n : ℕ) (v : Vecs N) (log : List (Start N))
      → build_nodes N b nodes 0 n (none_yet N) [] ≡ (log, done v)
      → (ports N log ≡ ports_from default_discovery_port n)
        × (default_discovery_port + n ≤ u16_bound)
        × (length v.all_discv4 ≡ n)
        × (same_length N v ≡ true)
  unfolding ports
  built_vecs b nodes n v log q =
      let (rounds, fits) = build_nodes-Rounds N b nodes 0 n (none_yet N) [] in
      let (grown, listens) =
        subst (Rounds N (default_discovery_port + 0) n (none_yet N) []) q rounds in
      let first : default_discovery_port + 0 ≡ default_discovery_port = omega arith in
      let size : length v.all_discv4 ≡ n = omega (arith, grown.discv4) in
      let same : (same_length N v) ≡ true =
        ground (arith, grown.discv4, grown.dnsdisc, grown.networks, grown.keys) in
      (
        listens ∙ ap (λ port. ports_from port n) first,
        elim (fits v (ap (λ o. o.1) q)) [
          | inl nothing ↦ omega (arith, N.port_fits)
          | inr bound ↦ omega arith
        ],
        size,
        same,
      )

  new_updates-length :
      (env : Environment N) (local_db : Bool) (v : Vecs N) (i left : ℕ)
      (us us' : List (UpdateListener N))
      → new_updates N env local_db v i left us ≡ done us'
      → length us' ≡ length us + left
  unfolding new_updates
  new_updates-length env local_db v i zero us us' q = omega (arith, ap length (done-injective q))
  new_updates-length env local_db v i (suc left) us us' q =
      elim (Outcome-cases (listener_at N env local_db v i)) [
        | inr fails ↦
            let ran : new_updates N env local_db v i (suc left) us ≡ panic =
              rw (fails, new_updates) refl in
            absurd (done-ne-panic (sym q ∙ ran))
        | inl (u, opened) ↦
            let ran : new_updates N env local_db v i (suc left) us
                ≡ new_updates N env local_db v (suc i) left (us ++ (u ∷ [])) =
              rw (opened, new_updates) refl in
            let rest =
              new_updates-length env local_db v (suc i) left (us ++ (u ∷ [])) us' (sym ran ∙ q) in
            omega (arith, rest, length-append us (u ∷ []))
      ]

  new_service-length :
      (env : Environment N) (local_db : Bool) (v : Vecs N) (provider : N.Provider)
      (s : CrawlerService N)
      → new_service N env local_db v provider ≡ done s
      → length s.updates ≡ length v.all_discv4
  unfolding new_service
  new_service-length env local_db v provider s q = elim (Bool-cases (same_length N v)) [
    | inr differ ↦
        let ran : new_service N env local_db v provider ≡ panic = rw (differ, new_service) refl in
        absurd (done-ne-panic (sym q ∙ ran))
    | inl same ↦ elim (Outcome-cases (new_updates N env local_db v 0 (length v.all_discv4) [])) [
      | inr fails ↦
          let ran : new_service N env local_db v provider ≡ panic =
            rw (same, fails, new_service) refl in
          absurd (done-ne-panic (sym q ∙ ran))
      | inl (us, built) ↦
          let ran : new_service N env local_db v provider
              ≡ done (record { provider = provider; updates = us }) =
            rw (same, built, new_service) refl in
          ap (λ s. length s.updates) (done-injective (sym q ∙ ran))
          ∙ new_updates-length env local_db v 0 (length v.all_discv4) [] us built
          ∙ zero-add (length v.all_discv4)
    ]
  ]

  module _ {H U64 : Type 0} ⦃e : Eq H⦄ (L : LruCache H U64) where
    -- If `build` does not panic, then it has started one network for each node, on the ports from the
    -- default port on, which are all below 2 ^ 16, and the service has one listener for each node.
    pub build-Ports :
        (b : CrawlerBuilder) (n_nodes : ℕ) (env : Environment N) (log : List (Start N))
        (s : CrawlerService N)
        → build N L b n_nodes env ≡ (log, done s)
        → (ports N log ≡ ports_from default_discovery_port n_nodes)
          × (default_discovery_port + n_nodes ≤ u16_bound)
          × (length s.updates ≡ n_nodes)
    unfolding build network_config discovery_config ports
    build-Ports b n_nodes env log s q = elim (Option-cases b.eth_rpc_url) [
      | inl missing ↦ absurd (no_panic q [] (rw (missing, build) refl))
      | inr (url, given) ↦ elim (Result-cases (env.connect url)) [
        | inr (e, failed) ↦ absurd (no_panic q [] (rw (given, failed, build) refl))
        | inl (provider, connected) ↦
            let Built = build_nodes N b env.nodes 0 n_nodes (none_yet N) [] in
            elim (Outcome-cases Built.1) [
              | inr fails ↦ absurd (no_panic q Built.0 (rw (given, connected, fails, build) refl))
              | inl (v, built) ↦ elim (Outcome-cases (BlockHashNum.new L)) [
                | inr fails ↦
                    absurd (no_panic q Built.0 (rw (given, connected, built, fails, build) refl))
                | inl (service, fresh) ↦
                    let ran : build N L b n_nodes env
                        ≡ (Built.0 ++ (state ∷ []), new_service N env b.local_db v provider) =
                      rw (given, connected, built, fresh, build) refl in
                    let (log_same, served) = pair-injective (sym ran ∙ q) in
                    let (listens, fits, size, same) =
                      built_vecs b env.nodes n_nodes v Built.0 (λ i. (Built.0, built i)) in
                    let empty : ports N (state ∷ []) ≡ [] = refl in
                    (
                      ap (ports N) (sym log_same)
                          ∙ ports-append N Built.0 (state ∷ [])
                          ∙ ap (λ l. ports N Built.0 ++ l) empty
                          ∙ append-nil (ports N Built.0)
                          ∙ listens,
                      fits,
                      new_service-length env b.local_db v provider s served ∙ size,
                    )
              ]
            ]
      ]
    ]

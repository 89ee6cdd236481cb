-- ===== src/Handshake/Races.antt =====
-- The failure counts when the tasks of a listener run at the same time: a task reads the count,
-- waits for its handshake, and then writes.
use reth_crawler.Prelude.{
  ℕ, ◌+◌, ◌≤◌, ◌<◌, ◌≡◌, refl, List, [], ◌∷◌, ◌++◌, arith, Eq, ◌==◌, beq_refl, leb, lookup,
  if◌then◌else◌, Bool-cases, inl, inr, All, All-map, All-append, All-middle,
}
use mathlib.Core.Path.{subst}
use native.Mathlib.Nat.{le_trans}
use reth_crawler.Text.{Text, text}
use reth_crawler.Text.Search.{contains}
use reth_crawler.Handshake.{
  Reth, Call, World, call, failure_count, set_count, p2p_failure_threshold, begin_p2p, fail_p2p,
}
use reth_crawler.Handshake.Counting.{failure_count-set_count}

module _ {PeerId : Type 0} ⦃e : Eq PeerId⦄ (R : Reth PeerId) where
  open R use {NodeRecord, P2pStream, id, address}

  -- The tasks that wait for a handshake, each with the count it has read, and for each peer how many
  -- of its handshakes have failed.
  pub record System : Type 0 where
    pub world : World R
    pub waiting : List (NodeRecord × ℕ)
    pub failures : PeerId → ℕ

  abbrev pub start : System
  start = record {
    world = record { calls = []; p2p_failures = [] };
    waiting = [];
    failures = λ p. 0;
  }

  abbrev pub bump : PeerId → (PeerId → ℕ) → PeerId → ℕ
  bump p f q = if p == q then f q + 1 else f q

  -- A failure counts unless the peer has too many peers.
  abbrev pub count_failure : NodeRecord → Text → (PeerId → ℕ) → PeerId → ℕ
  count_failure peer message f =
      if contains message (text "Too many peers") then f else bump (id peer) f

  -- One move of some task: it starts on a peer, or its handshake succeeds or fails.
  pub data Step (s : System) : System → Type 0 where
    begins :
        (peer : NodeRecord)
        → Step s (record s {
          world = (begin_p2p R peer s.world).0;
          waiting = (peer, (begin_p2p R peer s.world).1) ∷ s.waiting;
        })
    succeeds :
        (before after : List (NodeRecord × ℕ)) (peer : NodeRecord) (count : ℕ)
        → s.waiting ≡ before ++ ((peer, count) ∷ after)
        → Step s (record s { waiting = before ++ after })
    fails :
        (before after : List (NodeRecord × ℕ)) (peer : NodeRecord) (count : ℕ) (message : Text)
        → s.waiting ≡ before ++ ((peer, count) ∷ after)
        → Step s (record {
          world = fail_p2p R peer count message s.world;
          waiting = before ++ after;
          failures = count_failure peer message s.failures;
        })

  pub data Reach : System → Type 0 where
    here : Reach start
    next : {s t : System} → Reach s → Step s t → Reach t

  -- The count that a task holds is sound.
  abbrev pub Held : (PeerId → ℕ) → NodeRecord × ℕ → Type 0
  Held f (peer, count) = (count < p2p_failure_threshold) × (count ≤ f (id peer))

  -- If the call bans an address, then some peer at it has failed often enough.
  abbrev pub Earned : (PeerId → ℕ) → Call PeerId R.IpAddr → Type 0
  Earned f (Call.ban_ip a) =
      (peer : NodeRecord) × (address peer ≡ a) × (p2p_failure_threshold ≤ f (id peer))
  Earned f _ = Unit

  pub Held-mono :
      (f g : PeerId → ℕ) → ((p : PeerId) → f p ≤ g p) → (t : NodeRecord × ℕ) → Held f t → Held g t
  Held-mono f g le (peer, count) (h, k) = (h, le_trans k (le (id peer)))

  Earned-mono :
      (f g : PeerId → ℕ)
      → ((p : PeerId) → f p ≤ g p)
      → (c : Call PeerId R.IpAddr) → Earned f c
      → Earned g c
  Earned-mono f g le (Call.ban_ip a) (peer, at, h) = (peer, at, le_trans h (le (id peer)))
  Earned-mono f g le (Call.send_lookup p) h = h
  Earned-mono f g le (Call.remove_peer p) h = h

  -- Every count that is stored or held by a task is below the threshold, and no more than the
  -- failures of that peer; if an address is banned, then some peer at it has failed as often as the
  -- threshold says.
  pub record IsSound (s : System) : Type 0 where
    pub stored : (p : PeerId) → failure_count R p s.world < p2p_failure_threshold
    pub stored_le : (p : PeerId) → failure_count R p s.world ≤ s.failures p
    pub held : All (Held s.failures) s.waiting
    pub bans : All (Earned s.failures) s.world.calls

  start-IsSound : IsSound start
  unfolding lookup
  start-IsSound = record {
    stored = λ p. omega arith;
    stored_le = λ p. omega arith;
    held = tt;
    bans = tt;
  }

  pub bump-le : (p : PeerId) (f : PeerId → ℕ) (q : PeerId) → f q ≤ bump p f q
  bump-le p f q = ground arith

  begins-IsSound :
      (s : System) (peer : NodeRecord)
      → IsSound s
      → IsSound (record s {
        world = (begin_p2p R peer s.world).0;
        waiting = (peer, (begin_p2p R peer s.world).1) ∷ s.waiting;
      })
  unfolding begin_p2p
  begins-IsSound s peer h = record {
    stored = h.stored;
    stored_le = h.stored_le;
    held = ((h.stored (id peer), h.stored_le (id peer)), h.held);
    bans =
        All-append (Earned s.failures) s.world.calls (Call.send_lookup (id peer) ∷ []) h.bans
          (tt, tt);
  }

  -- the failure that is the last one allowed
  last-IsSound :
      (s : System) (peer : NodeRecord) (rest : List (NodeRecord × ℕ))
      → IsSound s
      → p2p_failure_threshold ≤ s.failures (id peer) + 1
      → All (Held s.failures) rest
      → IsSound (record {
        world = set_count R (id peer) 0 (call R (Call.ban_ip (address peer)) s.world);
        waiting = rest;
        failures = bump (id peer) s.failures;
      })
  last-IsSound s peer rest h enough held =
      let p = id peer in
      let w = call R (Call.ban_ip (address peer)) s.world in
      let f = bump p s.failures in
      let grows = bump-le p s.failures in
      record {
        stored = λ q. ground (arith, failure_count-set_count R p q 0 w, h.stored q);
        stored_le = λ q. ground (arith, failure_count-set_count R p q 0 w, h.stored_le q);
        held = All-map (Held s.failures) (Held f) rest (Held-mono s.failures f grows) held;
        bans =
            All-append (Earned f) s.world.calls (Call.ban_ip (address peer) ∷ [])
              (All-map (Earned s.failures) (Earned f) s.world.calls (Earned-mono s.failures f grows)
                h.bans)
              ((peer, refl, rw (beq_refl p) enough), tt);
      }

  -- a failure that is counted and leaves the peer in
  next-IsSound :
      (s : System) (peer : NodeRecord) (count : ℕ) (rest : List (NodeRecord × ℕ))
      → IsSound s
      → count + 1 < p2p_failure_threshold
      → count ≤ s.failures (id peer)
      → All (Held s.failures) rest
      → IsSound (record {
        world = set_count R (id peer) (count + 1) s.world;
        waiting = rest;
        failures = bump (id peer) s.failures;
      })
  next-IsSound s peer count rest h few le held =
      let p = id peer in
      let f = bump p s.failures in
      let grows = bump-le p s.failures in
      record {
        stored = λ q. ground (arith, failure_count-set_count R p q (count + 1) s.world, h.stored q);
        stored_le = λ q. ground (
          arith,
          failure_count-set_count R p q (count + 1) s.world,
          h.stored_le q,
          e.beq_iff p q,
        );
        held = All-map (Held s.failures) (Held f) rest (Held-mono s.failures f grows) held;
        bans =
            All-map (Earned s.failures) (Earned f) s.world.calls (Earned-mono s.failures f grows)
              h.bans;
      }

  fails-IsSound :
      (s : System) (peer : NodeRecord) (count : ℕ) (message : Text) (rest : List (NodeRecord × ℕ))
      → IsSound s
      → Held s.failures (peer, count)
      → All (Held s.failures) rest
      → IsSound (record {
        world = fail_p2p R peer count message s.world;
        waiting = rest;
        failures = count_failure peer message s.failures;
      })
  unfolding fail_p2p
  fails-IsSound s peer count message rest h (lt, le) held =
      elim (Bool-cases (contains message (text "Too many peers"))) [
        | inl many ↦
            rw (many, fail_p2p)
              (record { stored = h.stored; stored_le = h.stored_le; held = held; bans = h.bans })
        | inr few ↦ elim (Bool-cases (leb p2p_failure_threshold (count + 1))) [
          | inl last ↦ rw (few, fail_p2p) (rw last (last-IsSound s peer rest h (ground arith) held))
          | inr more ↦
              rw (few, fail_p2p) (rw more (next-IsSound s peer count rest h (ground arith) le held))
        ]
      ]

  Step-IsSound : {s t : System} → Step s t → IsSound s → IsSound t
  Step-IsSound {s} (begins peer) h = begins-IsSound s peer h
  Step-IsSound {s} (succeeds before after peer count w) h = record {
    stored = h.stored;
    stored_le = h.stored_le;
    held =
        (All-middle (Held s.failures) before (peer, count) after
          (subst (All (Held s.failures)) w h.held)).1;
    bans = h.bans;
  }
  Step-IsSound {s} (fails before after peer count message w) h =
      let (now, rest) =
        All-middle (Held s.failures) before (peer, count) after
          (subst (All (Held s.failures)) w h.held) in
      fails-IsSound s peer count message (before ++ after) h now rest

  -- However the tasks interleave, no count reaches the threshold, so the increment of the `u64` never
  -- overflows; and no address is banned for failed p2p handshakes before a peer at it has failed
  -- `p2p_failure_threshold` times.
  pub Reach-IsSound : {s : System} → Reach s → IsSound s
  Reach-IsSound here = start-IsSound
  Reach-IsSound (next r step) = Step-IsSound step (Reach-IsSound r)

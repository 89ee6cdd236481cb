-- ===== src/Concurrent/Counts.antt =====
-- The failure counts and the bans, after a p2p handshake that failed.
use mathlib.Core.List.{Mem}
use native.Mathlib.Nat.{le_trans}
use reth_crawler.Prelude.{
  Result, err, ℕ, ◌+◌, ◌≤◌, ◌<◌, ◌≡◌, refl, ◌⊎◌, inl, inr, List, [], ◌∷◌, Eq, beq_refl, leb, arith,
  Bool-cases, All, All-map, All-append,
}
use reth_crawler.Text.{Text, text}
use reth_crawler.Text.Search.{contains}
use reth_crawler.Handshake.{
  Reth, HelloMessage, Status, Call, World, call, failure_count, p2p_failure_threshold, fail_p2p,
}
use reth_crawler.Handshake.Counting.{failure_count-set_count}
use reth_crawler.Handshake.Races.{bump, bump-le, count_failure}

module _ {PeerId : Type 0} ⦃e : Eq PeerId⦄ (R : Reth PeerId) where
  open R use {NodeRecord, id, address}

  -- Every count is below the threshold, and no more than the failures of its peer.
  pub record Counted (w : World R) (f : PeerId → ℕ) : Type 0 where
    pub stored : (p : PeerId) → failure_count R p w < p2p_failure_threshold
    pub stored_le : (p : PeerId) → failure_count R p w ≤ f p

  -- The answer of an eth handshake, with its peer and the hello message from before.
  abbrev pub Answer : Type 0
  Answer = NodeRecord × HelloMessage × Result Text Status

  -- The peer failed an eth handshake, or passed it after a hello message without a client version.
  pub record Refused (heard : List Answer) (peer : NodeRecord) : Type 0 where
    pub hello : HelloMessage
    pub reply : Result Text Status
    pub answered : Mem (peer, hello, reply) heard
    pub reason : ((message : Text) × (reply ≡ err message)) ⊎ (hello.client_version ≡ [])

  -- If the call bans an address, then a peer at it failed as often as the threshold says, or was
  -- refused.
  abbrev pub Justified : (PeerId → ℕ) → List Answer → Call PeerId R.IpAddr → Type 0
  Justified f heard (Call.ban_ip a) =
      (peer : NodeRecord) × (address peer ≡ a)
      × ((p2p_failure_threshold ≤ f (id peer)) ⊎ Refused heard peer)
  Justified f heard _ = Unit

  pub Justified-mono :
      (f g : PeerId → ℕ) (xs ys : List Answer)
      → ((p : PeerId) → f p ≤ g p)
      → ((answer : Answer) → Mem answer xs → Mem answer ys)
      → (c : Call PeerId R.IpAddr) → Justified f xs c
      → Justified g ys c
  Justified-mono f g xs ys le more (Call.ban_ip a) (peer, at, inl h) =
      (peer, at, inl (le_trans h (le (id peer))))
  Justified-mono f g xs ys le more (Call.ban_ip a) (peer, at, inr h) = (
    peer,
    at,
    inr (record {
      hello = h.hello;
      reply = h.reply;
      answered = more (peer, h.hello, h.reply) h.answered;
      reason = h.reason;
    }),
  )
  Justified-mono f g xs ys le more (Call.send_lookup p) h = h
  Justified-mono f g xs ys le more (Call.remove_peer p) h = h

  pub count_failure-le :
      (peer : NodeRecord) (message : Text) (f : PeerId → ℕ) (q : PeerId)
      → f q ≤ count_failure R peer message f q
  count_failure-le peer message f q = ground arith

  -- A failed handshake keeps the counts sound.
  pub fail-Counted :
      (peer : NodeRecord) (count : ℕ) (message : Text) (w : World R) (f : PeerId → ℕ)
      → count ≤ f (id peer)
      → Counted w f
      → Counted (fail_p2p R peer count message w) (count_failure R peer message f)
  unfolding fail_p2p
  fail-Counted peer count message w f le h =
      let p = id peer in
      let banned = call R (Call.ban_ip (address peer)) w in
      elim (Bool-cases (contains message (text "Too many peers"))) [
        | inl many ↦ rw (many, fail_p2p) h
        | inr few ↦ elim (Bool-cases (leb p2p_failure_threshold (count + 1))) [
          | inl last ↦
              rw (few, last, fail_p2p)
                (record {
                  stored = λ q. ground (arith, failure_count-set_count R p q 0 banned, h.stored q);
                  stored_le =
                      λ q. ground (arith, failure_count-set_count R p q 0 banned, h.stored_le q);
                })
          | inr more ↦
              rw (few, more, fail_p2p)
                (record {
                  stored = λ q.
                      ground (arith, failure_count-set_count R p q (count + 1) w, h.stored q, more);
                  stored_le = λ q. ground (
                    arith,
                    failure_count-set_count R p q (count + 1) w,
                    h.stored_le q,
                    e.beq_iff p q,
                  );
                })
        ]
      ]

  -- A failed handshake bans an address only if it is the last one allowed.
  pub fail-Justified :
      (peer : NodeRecord) (count : ℕ) (message : Text) (w : World R) (f : PeerId → ℕ)
      (heard : List Answer)
      → count ≤ f (id peer)
      → All (Justified f heard) w.calls
      → All
          (Justified (count_failure R peer message f) heard)
          (fail_p2p R peer count message w).calls
  unfolding fail_p2p
  fail-Justified peer count message w f heard le h =
      let g = bump R (id peer) f in
      let grown =
        All-map (Justified f heard) (Justified g heard) w.calls
          (Justified-mono f g heard heard (bump-le R (id peer) f) (λ x m. m)) h in
      elim (Bool-cases (contains message (text "Too many peers"))) [
        | inl many ↦ rw (many, fail_p2p) h
        | inr few ↦ elim (Bool-cases (leb p2p_failure_threshold (count + 1))) [
          | inl last ↦
              let enough : p2p_failure_threshold ≤ g (id peer) =
                rw (beq_refl (id peer)) (ground (arith, last)) in
              rw (few, last, fail_p2p)
                (All-append (Justified g heard) w.calls (Call.ban_ip (address peer) ∷ []) grown
                  ((peer, refl, inl enough), tt))
          | inr more ↦ rw (few, more, fail_p2p) grown
        ]
      ]

-- ===== src/Handshake/Counting.antt =====
-- The failure counts when the attempts on a peer come one after another.
use reth_crawler.Prelude.{
  ℕ, suc, ◌+◌, ◌/◌, ◌%◌, ◌<◌, ◌≡◌, ◌∙◌, List, [], ◌∷◌, ◌++◌, Result, ok, err, arith, Eq, ◌==◌,
  beq_refl, leb, lookup-insert, if◌then◌else◌, Bool-cases, inl, inr,
}
use reth_crawler.Text.{Text, text}
use reth_crawler.Text.Search.{contains}
use reth_crawler.Handshake.{
  Reth, HelloMessage, Call, World, call, failure_count, set_count, p2p_failure_threshold, fail_p2p,
  handshake_p2p_handle,
}

module _ {PeerId IpAddr : Type 0} where
  -- how many `ban_ip` calls there are
  pub bans : List (Call PeerId IpAddr) → ℕ
  bans [] = 0
  bans (Call.ban_ip a ∷ calls) = suc (bans calls)
  bans (_ ∷ calls) = bans calls

  pub bans-append : (xs ys : List (Call PeerId IpAddr)) → bans (xs ++ ys) ≡ bans xs + bans ys
  unfolding bans
  bans-append [] ys = omega arith
  bans-append (Call.ban_ip a ∷ xs) ys = omega (arith, bans-append xs ys)
  bans-append (Call.send_lookup p ∷ xs) ys = bans-append xs ys
  bans-append (Call.remove_peer p ∷ xs) ys = bans-append xs ys

  bans-ban :
      (calls : List (Call PeerId IpAddr)) (a : IpAddr)
      → bans (calls ++ Call.ban_ip a ∷ []) ≡ bans calls + 1
  unfolding bans
  bans-ban calls a = bans-append calls (Call.ban_ip a ∷ [])

  pub bans-lookup :
      (calls : List (Call PeerId IpAddr)) (p : PeerId)
      → bans (calls ++ Call.send_lookup p ∷ []) ≡ bans calls
  unfolding bans
  bans-lookup calls p = omega (arith, bans-append calls (Call.send_lookup p ∷ []))

module _ {PeerId : Type 0} ⦃e : Eq PeerId⦄ (R : Reth PeerId) where
  open R use {NodeRecord, P2pStream, id, address}

  -- Whether a result counts as a failure: the peer did not just have too many peers.
  abbrev pub counted : Result Text (P2pStream × HelloMessage) → ℕ
  counted (ok s) = 0
  counted (err message) = if contains message (text "Too many peers") then 0 else 1

  abbrev pub total : List (Result Text (P2pStream × HelloMessage)) → ℕ
  total [] = 0
  total (r ∷ rs) = counted r + total rs

  -- attempts on one peer, one after another
  pub attempts : NodeRecord → List (Result Text (P2pStream × HelloMessage)) → World R → World R
  attempts peer [] w = w
  attempts peer (r ∷ rs) w = attempts peer rs (handshake_p2p_handle R peer r w).0

  -- The count of one peer is not changed by what happens to another.
  pub failure_count-set_count :
      (p q : PeerId) (n : ℕ) (w : World R)
      → failure_count R q (set_count R p n w) ≡ (if p == q then n else failure_count R q w)
  failure_count-set_count p q n w = ground (arith, lookup-insert p q n w.p2p_failures)

  pub failure_count-set_count_self :
      (p : PeerId) (n : ℕ) (w : World R) → failure_count R p (set_count R p n w) ≡ n
  failure_count-set_count_self p n w = failure_count-set_count p p n w ∙ rw (beq_refl p)

  record Counted (peer : NodeRecord) (n : ℕ) (w w' : World R) : Type 0 where
    count : failure_count R (id peer) w' ≡ (failure_count R (id peer) w + n) % p2p_failure_threshold
    banned :
        bans w'.calls ≡ bans w.calls + (failure_count R (id peer) w + n) / p2p_failure_threshold

  attempt-Counted :
      (peer : NodeRecord) (r : Result Text (P2pStream × HelloMessage)) (w : World R)
      → failure_count R (id peer) w < p2p_failure_threshold
      → Counted peer (counted r) w (handshake_p2p_handle R peer r w).0
  unfolding handshake_p2p_handle bans
  attempt-Counted peer (ok s) w h = record {
    count = omega arith;
    banned = omega (arith, bans-lookup w.calls (id peer));
  }
  attempt-Counted peer (err message) w h =
      let w' = call R (Call.send_lookup (id peer)) w in
      let c = failure_count R (id peer) w in
      let looked = bans-lookup w.calls (id peer) in
      elim (Bool-cases (contains message (text "Too many peers"))) [
        | inl many ↦
            rw (many, fail_p2p) (record { count = omega arith; banned = omega (arith, looked) })
        | inr few ↦ elim (Bool-cases (leb p2p_failure_threshold (c + 1))) [
          | inl last ↦
              rw (few, fail_p2p)
                (rw last (record {
                  count =
                      failure_count-set_count_self (id peer) 0
                        (call R (Call.ban_ip (address peer)) w')
                      ∙ ground arith;
                  banned = ground (arith, looked, bans-ban w'.calls (address peer));
                }))
          | inr next ↦
              rw (few, fail_p2p)
                (rw next (record {
                  count = failure_count-set_count_self (id peer) (c + 1) w' ∙ ground arith;
                  banned = ground (arith, looked);
                }))
        ]
      ]

  -- Attempts on one peer, one after another, from a count below the threshold: the count moves by
  -- the number of counted failures modulo the threshold, and for each `p2p_failure_threshold` of
  -- them the address is banned once. Successes, and failures because the peer has too many peers,
  -- do not count.
  pub attempts_count :
      (peer : NodeRecord) (rs : List (Result Text (P2pStream × HelloMessage))) (w : World R)
      → failure_count R (id peer) w < p2p_failure_threshold
      → (failure_count R (id peer) (attempts peer rs w)
          ≡ (failure_count R (id peer) w + total rs) % p2p_failure_threshold)
        × (bans (attempts peer rs w).calls
            ≡ bans w.calls + (failure_count R (id peer) w + total rs) / p2p_failure_threshold)
  unfolding attempts
  attempts_count peer [] w h = (omega arith, omega arith)
  attempts_count peer (r ∷ rs) w h =
      let now = attempt-Counted peer r w h in
      let (count, banned) =
        attempts_count peer rs (handshake_p2p_handle R peer r w).0 (omega (arith, now.count)) in
      (omega (arith, count, now.count), omega (arith, banned, now.count, now.banned))

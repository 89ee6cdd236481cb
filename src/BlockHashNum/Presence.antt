-- ===== src/BlockHashNum/Presence.antt =====
-- Which hashes the service reports as present: those among the latest `synced_threshold`.
use mathlib.Core.List.{append-nil, append_assoc}
use native.Mathlib.Nat.{zero-add}
use reth_crawler.Prelude.{
  ℕ, zero, suc, ◌+◌, ◌≤◌, ◌<◌, ◌≡◌, refl, sym, ap, ◌∙◌, inl, inr, Bool, true, false, ◌||◌, List, [],
  ◌∷◌, ◌++◌, arith, Eq, ◌==◌, beq_refl, take, drop, length, Bool-cases, done,
}
use reth_crawler.BlockHashNum.Lru.{LruCache, remove, touch, any_eq}
use reth_crawler.BlockHashNum.Window.{
  recency, recency-append, hashes, cap-apply_updates, keys-apply_updates,
}
use reth_crawler.BlockHashNum.{
  synced_threshold, HashRequest, BlockUpdate, BlockHashNum, Event, request, update, wake, Trace,
  new, answer_requests, poll, is_block_hash_present, new_block, step, run,
}

-- The service as a client sees it: the hashes of all updates it has taken, and the messages that wait.
pub record Ledger (H U64 : Type 0) : Type 0 where
  pub seen : List H
  pub requests : List (HashRequest H)
  pub updates : List (BlockUpdate H U64)

module _ {ℓ} {H : Type ℓ} ⦃e : Eq H⦄ where
  -- A hash is recent if it is among the latest `synced_threshold` different hashes.
  abbrev pub is_recent : H → List H → Bool
  is_recent h seen = any_eq h (take synced_threshold (recency [] seen))

module _ {H U64 : Type 0} ⦃e : Eq H⦄ (L : LruCache H U64) where
  open L use {Cache, keys, cap, contains, contains-keys, keys-new, cap-new}

  unfoldable pub reply_all : List H → List (HashRequest H) → List (ℕ × Bool)
  reply_all seen [] = []
  reply_all seen (r ∷ rs) = (r.response, is_recent r.hash seen) ∷ reply_all seen rs

  -- What the service promises for an event: the new ledger and the answers that are sent.
  unfoldable pub promise : Ledger H U64 → Event L → Ledger H U64 × List (ℕ × Bool)
  unfolding reply_all
  promise s (request h tx) =
      (record s { requests = s.requests ++ record { hash = h; response = tx } ∷ [] }, [])
  promise s (update h n tx) =
      (record s { updates = s.updates ++ record { hash = h; number = n; response = tx } ∷ [] }, [])
  promise s (wake n m) = (
    record {
      seen = s.seen ++ hashes L (take m s.updates);
      requests = drop n s.requests;
      updates = drop m s.updates;
    },
    reply_all s.seen (take n s.requests),
  )

  unfoldable pub promises : Ledger H U64 → List (Event L) → Ledger H U64 × List (ℕ × Bool)
  unfolding promise
  promises s [] = (s, [])
  promises s (event ∷ events) =
      let (s', answers) = promise s event in
      let (s'', more) = promises s' events in (s'', answers ++ more)

  -- The service stands for a ledger.
  pub record Implements (service : BlockHashNum L) (s : Ledger H U64) : Type 0 where
    pub size : cap service.blocks_hash_to_number ≡ synced_threshold
    pub window : keys service.blocks_hash_to_number ≡ take synced_threshold (recency [] s.seen)
    pub requests : service.command_rx ≡ s.requests
    pub updates : service.block_subscription_rx ≡ s.updates

  pub new-Implements :
      (service : BlockHashNum L) × (new L ≡ done service)
      × Implements service (record { seen = []; requests = []; updates = [] })
  unfolding new
  new-Implements = (
    _,
    refl,
    record { size = cap-new 100; window = keys-new 100; requests = refl; updates = refl },
  )

  answer_requests-reply_all :
      (c : Cache) (seen : List H) (rs : List (HashRequest H))
      → keys c ≡ take synced_threshold (recency [] seen)
      → answer_requests L c rs ≡ reply_all seen rs
  unfolding answer_requests reply_all
  answer_requests-reply_all c seen [] h = refl
  answer_requests-reply_all c seen (r ∷ rs) h =
      rw (contains-keys, h)
        (ap (◌∷◌ (r.response, is_recent r.hash seen)) (answer_requests-reply_all c seen rs h))

  step-Implements :
      (t : Trace L) (s : Ledger H U64) (event : Event L)
      → Implements t.service s
      → Implements (step L t event).service (promise s event).0
        × ((step L t event).answers ≡ t.answers ++ (promise s event).1)
  unfolding step promise poll is_block_hash_present new_block
  step-Implements t s (request h tx) i = (
    record {
      size = i.size;
      window = i.window;
      requests = ap (λ rs. rs ++ record { hash = h; response = tx } ∷ []) i.requests;
      updates = i.updates;
    },
    sym (append-nil t.answers),
  )
  step-Implements t s (update h n tx) i = (
    record {
      size = i.size;
      window = i.window;
      requests = i.requests;
      updates = ap (λ us. us ++ record { hash = h; number = n; response = tx } ∷ []) i.updates;
    },
    sym (append-nil t.answers),
  )
  step-Implements t s (wake n m) i =
      let c = t.service.blocks_hash_to_number in
      let us = take m t.service.block_subscription_rx in
      let held : keys c ≡ take (cap c) (recency [] s.seen) = rw i.size i.window in
      (
        record {
          size = cap-apply_updates L c us ∙ i.size;
          window =
              keys-apply_updates L c (recency [] s.seen) us held
              ∙ rw (i.size, i.updates) (rw recency-append);
          requests = ap (drop n) i.requests;
          updates = ap (drop m) i.updates;
        },
        ap (◌++◌ t.answers) (
            answer_requests-reply_all c s.seen (take n t.service.command_rx) i.window
            ∙ ap (λ rs. reply_all s.seen (take n rs)) i.requests),
      )

  -- Whatever messages arrive and however the service is polled, it sends exactly the promised
  -- answers, in their order, and goes on to stand for the promised ledger: a request is answered by
  -- whether its hash is among the latest `synced_threshold` different hashes of the updates that
  -- earlier polls took.
  pub run-promises :
      (t : Trace L) (s : Ledger H U64) (events : List (Event L))
      → Implements t.service s
      → Implements (run L t events).service (promises s events).0
        × ((run L t events).answers ≡ t.answers ++ (promises s events).1)
  unfolding run promises
  run-promises t s [] i = (i, sym (append-nil t.answers))
  run-promises t s (event ∷ events) i =
      let (now, sent) = step-Implements t s event i in
      let (then_on, more) = run-promises (step L t event) (promise s event).0 events now in
      (then_on, more ∙ rw (sent, append_assoc))

module _ {ℓ} {H : Type ℓ} ⦃e : Eq H⦄ where
  any-take-suc :
      (h : H) (n : ℕ) (l : List H) → any_eq h (take n l) ≡ true → any_eq h (take (suc n) l) ≡ true
  any-take-suc h zero l p = cc
  any-take-suc h (suc n) [] p = p
  any-take-suc h (suc n) (k ∷ l) p = ground (arith, any-take-suc h n l)

  any-take-remove :
      (h k : H) (n : ℕ) (l : List H)
      → (k == h) ≡ false
      → any_eq h (take n l) ≡ true
      → any_eq h (take n (remove k l)) ≡ true
  unfolding remove
  any-take-remove h k zero l ne p = p
  any-take-remove h k (suc n) [] ne p = p
  any-take-remove h k (suc n) (x ∷ l) ne p = elim (Bool-cases (x == k)) [
    | inl same ↦ rw same (any-take-suc h n l (ground (arith, e.beq_iff x k)))
    | inr other ↦ rw other (ground (arith, any-take-remove h k n l ne))
  ]

  any-take-le :
      (h : H) (n m : ℕ) (l : List H)
      → n ≤ m
      → any_eq h (take n l) ≡ true
      → any_eq h (take m l) ≡ true
  any-take-le h zero m l le p = cc
  any-take-le h (suc n) zero l le p = absurd (omega arith)
  any-take-le h (suc n) (suc m) [] le p = p
  any-take-le h (suc n) (suc m) (k ∷ l) le p = ground (arith, any-take-le h n m l)

  -- One more update moves a hash back by one place at most.
  any-take-touch :
      (h k : H) (n : ℕ) (l : List H)
      → any_eq h (take n l) ≡ true
      → any_eq h (take (suc n) (touch k l)) ≡ true
  any-take-touch h k n l p = elim (Bool-cases (k == h)) [
    | inl same ↦ rw same
    | inr other ↦ rw other (any-take-remove h k n l other p)
  ]

  any-take-recency :
      (h : H) (n : ℕ) (l hs : List H)
      → any_eq h (take n l) ≡ true
      → any_eq h (take (length hs + n) (recency l hs)) ≡ true
  any-take-recency h n l [] p = rw zero-add p
  any-take-recency h n l (k ∷ hs) p =
      let shift : suc (length hs) + n ≡ length hs + suc n = omega arith in
      rw shift (any-take-recency h (suc n) (touch k l) hs (any-take-touch h k n l p))

  -- A hash is recent if fewer than `synced_threshold` updates came after it: a peer whose best block
  -- lags behind by less than `synced_threshold` blocks counts as synced.
  pub is_recent_of_lag :
      (h : H) (before after : List H)
      → length after < synced_threshold
      → is_recent h (before ++ (h ∷ after)) ≡ true
  is_recent_of_lag h before after lag =
      let start = recency [] before in
      let newest : any_eq h (take 1 (touch h start)) ≡ true = rw (beq_refl h) in
      rw recency-append (
        any-take-le h (length after + 1) synced_threshold (recency (touch h start) after)
          (omega arith) (any-take-recency h 1 (touch h start) after newest))

  any-take : (h : H) (n : ℕ) (l : List H) → any_eq h (take n l) ≡ true → any_eq h l ≡ true
  any-take h zero l p = cc
  any-take h (suc n) [] p = p
  any-take h (suc n) (k ∷ l) p = ground (arith, any-take h n l)

  any-remove : (h k : H) (l : List H) → any_eq h (remove k l) ≡ true → any_eq h l ≡ true
  unfolding remove
  any-remove h k [] p = p
  any-remove h k (x ∷ l) p = ground (arith, any-remove h k l)

  any-recency :
      (h : H) (l hs : List H) → any_eq h (recency l hs) ≡ true → (any_eq h l || any_eq h hs) ≡ true
  any-recency h l [] p = ground arith
  any-recency h l (k ∷ hs) p = ground (arith, any-recency h (touch k l) hs p, any-remove h k l)

  -- A hash that no update had is never recent.
  pub is_recent_sound : (h : H) (seen : List H) → is_recent h seen ≡ true → any_eq h seen ≡ true
  is_recent_sound h seen p = any-recency h [] seen (any-take h synced_threshold (recency [] seen) p)

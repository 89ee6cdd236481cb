-- ===== src/StateListener/Synced.antt =====
-- The subscription loop, the service and a request together: which blocks a peer may stand at.
use mathlib.Core.Path.{subst}
use mathlib.Core.List.{append-nil, append_assoc}
use reth_crawler.Prelude.{
  ℕ, zero, suc, ◌≤◌, ◌<◌, ◌≡◌, refl, sym, ap, ◌∙◌, Bool, true, List, [], ◌∷◌, ◌++◌, Eq, arith,
  length, length-append, take,
}
use reth_crawler.BlockHashNum.Lru.{LruCache, any_eq}
use reth_crawler.BlockHashNum.Presence.{
  Ledger, Implements, is_recent, is_recent_of_lag, is_recent_sound, reply_all, promise, promises,
  run-promises,
}
use reth_crawler.BlockHashNum.{synced_threshold, HashRequest, Trace, request, wake, run}
use reth_crawler.StateListener.{Arrival, follow}
use reth_crawler.StateListener.Following.{Followed, follow-Followed}

take_all {ℓ} : {A : Type ℓ} (n : ℕ) (xs : List A) → length xs ≤ n → take n xs ≡ xs
take_all zero [] h = refl
take_all (suc n) [] h = refl
take_all zero (x ∷ xs) h = absurd (omega arith)
take_all (suc n) (x ∷ xs) h = ap (◌∷◌ x) (take_all n xs (omega arith))

module _ {H U64 : Type 0} ⦃e : Eq H⦄ (L : LruCache H U64) where
  reply_all-append :
      (seen : List H) (rs qs : List (HashRequest H))
      → reply_all L seen (rs ++ qs) ≡ reply_all L seen rs ++ reply_all L seen qs
  unfolding reply_all
  reply_all-append seen [] qs = refl
  reply_all-append seen (r ∷ rs) qs =
      ap (◌∷◌ (r.response, is_recent r.hash seen)) (reply_all-append seen rs qs)

  -- a request, and a poll to which it and all earlier requests are delivered
  unfoldable pub ask : H → ℕ → ℕ → ℕ → Trace L → Trace L
  ask h tx n m t = run L t (request h tx ∷ wake n m ∷ [])

  answers-ask :
      (h : H) (tx n m : ℕ) (t : Trace L) (s : Ledger H U64)
      → Implements L t.service s
      → length t.service.command_rx < n
      → (ask h tx n m t).answers
        ≡ (t.answers ++ reply_all L s.seen s.requests) ++ ((tx, is_recent h s.seen) ∷ [])
  unfolding ask promises promise reply_all
  answers-ask h tx n m t s stands enough =
      let r : HashRequest H = record { hash = h; response = tx } in
      let sent = (run-promises L t s (request h tx ∷ wake n m ∷ []) stands).1 in
      let all : take n (s.requests ++ (r ∷ [])) ≡ s.requests ++ (r ∷ []) =
        take_all n (s.requests ++ (r ∷ []))
          (omega (arith, length-append s.requests (r ∷ []), ap length stands.requests, enough)) in
      let replies : reply_all L s.seen (take n (s.requests ++ (r ∷ [])))
          ≡ reply_all L s.seen s.requests ++ ((tx, is_recent h s.seen) ∷ []) =
        ap (reply_all L s.seen) all ∙ reply_all-append s.seen s.requests (r ∷ []) in
      sent
      ∙ ap (λ l. t.answers ++ l)
          (append-nil (reply_all L s.seen (take n (s.requests ++ (r ∷ [])))) ∙ replies)
      ∙ sym (append_assoc t.answers (reply_all L s.seen s.requests) ((tx, is_recent h s.seen) ∷ []))

  -- The last answer, to a request for a hash: whether it is a block's with one of these hashes, at
  -- least if it lags behind by fewer than `synced_threshold` of them.
  pub record Answered (hashes : List H) (h : H) (tx : ℕ) (answers : List (ℕ × Bool)) : Type 0 where
    pub earlier : List (ℕ × Bool)
    pub present : Bool
    pub last : answers ≡ earlier ++ ((tx, present) ∷ [])
    pub sound : present ≡ true → any_eq h hashes ≡ true
    pub of_lag :
        (before after : List H)
        → hashes ≡ before ++ (h ∷ after)
        → length after < synced_threshold
        → present ≡ true

  -- A service for which nothing has been taken yet follows a subscription. Then the hash of a peer's
  -- best block is asked for, and the service is polled until it has taken that request. The answer is
  -- yes only if a block had the hash that the loop has passed, and it is yes if fewer than
  -- `synced_threshold` blocks came after such a block.
  pub follow-Answered :
      (arrivals : List (Arrival H U64)) (tx : ℕ) (t : Trace L) (s : Ledger H U64) (h : H)
      (channel n m : ℕ)
      → Implements L t.service s
      → s.updates ≡ []
      → s.seen ≡ []
      → let (t', fate) = follow L tx arrivals t in
        length t'.service.command_rx < n
        → (f : Followed L arrivals [] t' fate) × Answered f.hashes h channel
            (ask h channel n m t').answers
  follow-Answered arrivals tx t s h channel n m stands quiet fresh enough =
      let (t', fate) = follow L tx arrivals t in
      let f : Followed L arrivals [] t' fate =
        subst (λ seen. Followed L arrivals seen t' fate) fresh
          (follow-Followed L arrivals tx t s stands quiet) in
      (
        f,
        record {
          earlier = t'.answers ++ reply_all L f.ledger.seen f.ledger.requests;
          present = is_recent h f.ledger.seen;
          last = answers-ask h channel n m t' f.ledger f.stands enough;
          sound =
              λ yes_it_is. is_recent_sound h f.hashes (sym (ap (is_recent h) f.saw) ∙ yes_it_is);
          of_lag = λ before after split lag.
              ap (is_recent h) (f.saw ∙ split) ∙ is_recent_of_lag h before after lag;
        },
      )

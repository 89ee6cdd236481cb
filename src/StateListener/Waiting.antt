-- ===== src/StateListener/Waiting.antt =====
-- What becomes of one block that is sent to the service.
use mathlib.Core.List.{append-nil}
use mathlib.Core.Path.{subst}
use mathlib.Core.Bool.{false≢true}
use reth_crawler.Prelude.{
  ℕ, zero, suc, ◌≡◌, refl, sym, ap, ◌∙◌, Bool, true, false, List, [], ◌∷◌, ◌++◌, map, Eq, ◌==◌,
  nat_eq, any, drop, ◌||◌, length, take, beq_refl, ltb,
}
use reth_crawler.BlockHashNum.Lru.{LruCache}
use reth_crawler.BlockHashNum.Window.{hashes}
use reth_crawler.BlockHashNum.Queues.{updated, update_channels, run_fifo}
use reth_crawler.BlockHashNum.Presence.{Ledger, promise, promises}
use reth_crawler.BlockHashNum.{BlockUpdate, Trace, update, run}
use reth_crawler.StateListener.{Meanwhile, asked, woken, event, send_block, acknowledged}

-- Lists that differ in their last element have the same front.
same_front : (xs ys : List ℕ) (a b : ℕ) → xs ++ (a ∷ []) ≡ ys ++ (b ∷ []) → xs ≡ ys
same_front [] [] a b h = refl
same_front [] (y ∷ []) a b h = cc
same_front [] (y ∷ z ∷ ys) a b h = cc
same_front (x ∷ []) [] a b h = cc
same_front (x ∷ z ∷ xs) [] a b h = cc
same_front (x ∷ xs) (y ∷ ys) a b h = let front = same_front xs ys a b (cc) in cc

drop-append {ℓ} : {A : Type ℓ} (xs ys : List A) → drop (length xs) (xs ++ ys) ≡ ys
drop-append [] ys = refl
drop-append (x ∷ xs) ys = drop-append xs ys

module _ {H U64 : Type 0} ⦃e : Eq H⦄ (L : LruCache H U64) where
  -- The ledger after one of the events.
  abbrev next : Ledger H U64 → Meanwhile H → Ledger H U64
  next s m = (promise L s (event L m)).0

  abbrev no_update : List (BlockUpdate H U64)
  no_update = []

  no_updates : (n : ℕ) → take n no_update ≡ []
  no_updates zero = refl
  no_updates (suc n) = refl

  none_left : (n : ℕ) → drop n no_update ≡ []
  none_left zero = refl
  none_left (suc n) = refl

  -- Where no update waits, none is taken.
  idle_step :
      (s : Ledger H U64) (m : Meanwhile H)
      → s.updates ≡ []
      → ((next s m).seen ≡ s.seen) × ((next s m).updates ≡ [])
  unfolding promise
  idle_step s (asked k tx) h = (refl, h)
  idle_step s (woken n m) h = (
    ap (λ us. s.seen ++ hashes L (take m us)) h
        ∙ ap (λ us. s.seen ++ hashes L us) (no_updates m)
        ∙ append-nil s.seen,
    ap (drop m) h ∙ none_left m,
  )

  idle :
      (ms : List (Meanwhile H)) (s : Ledger H U64)
      → s.updates ≡ []
      → ((promises L s (map (event L) ms)).0.seen ≡ s.seen)
        × ((promises L s (map (event L) ms)).0.updates ≡ [])
  unfolding promises
  idle [] s h = (refl, h)
  idle (m ∷ ms) s h =
      let (same, quiet) = idle_step s m h in
      let (same', quiet') = idle ms (next s m) quiet in (same' ∙ same, quiet')

  -- Either the one update that waits still does, and nothing was taken, or it was.
  pub data Settled (u : BlockUpdate H U64) (seen : List H) (s : Ledger H U64) : Type 0 where
    untaken : s.seen ≡ seen → s.updates ≡ u ∷ [] → Settled u seen s
    taken : s.seen ≡ seen ++ (u.hash ∷ []) → s.updates ≡ [] → Settled u seen s

  settles_step :
      (u : BlockUpdate H U64) (s : Ledger H U64) (m : Meanwhile H)
      → s.updates ≡ u ∷ []
      → Settled u s.seen (next s m)
  unfolding promise
  settles_step u s (asked k tx) h = untaken refl h
  settles_step u s (woken n zero) h = untaken (append-nil s.seen) h
  settles_step u s (woken n (suc m)) h =
      taken
        (ap (λ us. s.seen ++ hashes L (take (suc m) us)) h
          ∙ ap (λ us. s.seen ++ (u.hash ∷ hashes L us)) (no_updates m))
        (ap (drop (suc m)) h ∙ none_left m)

  pub settles :
      (u : BlockUpdate H U64) (ms : List (Meanwhile H)) (s : Ledger H U64)
      → s.updates ≡ u ∷ []
      → Settled u s.seen (promises L s (map (event L) ms)).0
  unfolding promises
  settles u [] s h = untaken refl h
  settles u (m ∷ ms) s h = elim (settles_step u s m h) [
    | untaken same waits ↦
        subst (λ l. Settled u l (promises L (next s m) (map (event L) ms)).0) same
          (settles u ms (next s m) waits)
    | taken seen quiet ↦ let (same, quiet') = idle ms (next s m) quiet in taken (same ∙ seen) quiet'
  ]

  -- Whether some poll takes an update.
  abbrev pub takes : Meanwhile H → Bool
  takes (asked k tx) = false
  takes (woken n m) = ltb 0 m

  -- If it is polled, the service takes the update.
  pub polled :
      (u : BlockUpdate H U64) (ms : List (Meanwhile H)) (s : Ledger H U64)
      → s.updates ≡ u ∷ []
      → any takes ms ≡ true
      → (promises L s (map (event L) ms)).0.updates ≡ []
  unfolding promises promise
  polled u [] s h p = absurd (false≢true p)
  polled u (asked k tx ∷ ms) s h p = polled u ms (next s (asked k tx)) h p
  polled u (woken n zero ∷ ms) s h p = polled u ms (next s (woken n zero)) h p
  polled u (woken n (suc m) ∷ ms) s h p =
      (idle ms (next s (woken n (suc m))) (ap (drop (suc m)) h ∙ none_left m)).1

  quiet : (ms : List (Meanwhile H)) → updated L (map (event L) ms) ≡ []
  unfolding updated
  quiet [] = refl
  quiet (asked k tx ∷ ms) = quiet ms
  quiet (woken n m ∷ ms) = quiet ms

  -- Nothing but the acknowledgement of the block can come.
  sent_acks :
      (h : H) (n : U64) (tx : ℕ) (ms : List (Meanwhile H)) (t : Trace L)
      → t.service.block_subscription_rx ≡ []
      → let t' = send_block L h n tx ms t in
        t'.acks ++ map (λ u. u.response) t'.service.block_subscription_rx ≡ t.acks ++ (tx ∷ [])
  unfolding send_block run updated update_channels
  sent_acks h n tx ms t empty =
      let response = λ (u : BlockUpdate H U64). u.response in
      (run_fifo L t (update h n tx ∷ map (event L) ms)).1
      ∙ ap (λ us. (t.acks ++ map response us) ++ (tx ∷ updated L (map (event L) ms))) empty
      ∙ ap (λ us. (t.acks ++ []) ++ (tx ∷ us)) (quiet ms)
      ∙ ap (λ acks. acks ++ (tx ∷ [])) (append-nil t.acks)

  -- The loop sees the acknowledgement exactly when the service has taken the block.
  pub acknowledged-taken :
      (h : H) (n : U64) (tx : ℕ) (ms : List (Meanwhile H)) (t : Trace L)
      → t.service.block_subscription_rx ≡ []
      → (send_block L h n tx ms t).service.block_subscription_rx ≡ []
      → acknowledged L tx t (send_block L h n tx ms t) ≡ true
  unfolding acknowledged
  acknowledged-taken h n tx ms t empty quiet_now =
      let t' = send_block L h n tx ms t in
      let response = λ (u : BlockUpdate H U64). u.response in
      let acks : t'.acks ≡ t.acks ++ (tx ∷ []) =
        sym (append-nil t'.acks)
        ∙ ap (λ us. t'.acks ++ map response us) (sym quiet_now)
        ∙ sent_acks h n tx ms t empty in
      ap (λ l. any (λ ack. ack == tx) (drop (length t.acks) l)) acks
      ∙ ap (any (λ ack. ack == tx)) (drop-append t.acks (tx ∷ []))
      ∙ ap (λ b. b || false) (beq_refl tx)

  pub acknowledged-waits :
      (h : H) (n : U64) (tx : ℕ) (ms : List (Meanwhile H)) (t : Trace L) (u : BlockUpdate H U64)
      → t.service.block_subscription_rx ≡ []
      → (send_block L h n tx ms t).service.block_subscription_rx ≡ u ∷ []
      → acknowledged L tx t (send_block L h n tx ms t) ≡ false
  unfolding acknowledged
  acknowledged-waits h n tx ms t u empty waits =
      let t' = send_block L h n tx ms t in
      let response = λ (u : BlockUpdate H U64). u.response in
      let sent : t'.acks ++ (u.response ∷ []) ≡ t.acks ++ (tx ∷ []) =
        ap (λ us. t'.acks ++ map response us) (sym waits) ∙ sent_acks h n tx ms t empty in
      let acks : t'.acks ≡ t.acks ++ [] =
        same_front t'.acks t.acks u.response tx sent ∙ sym (append-nil t.acks) in
      ap (λ l. any (λ ack. ack == tx) (drop (length t.acks) l)) acks
      ∙ ap (any (λ ack. ack == tx)) (drop-append t.acks [])

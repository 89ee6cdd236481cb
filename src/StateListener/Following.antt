-- ===== src/StateListener/Following.antt =====
-- The subscription loop and the service together: the service takes the blocks in order.
use reth_crawler.Prelude.{
  ℕ, suc, ◌≡◌, refl, sym, ap, ◌∙◌, ◌⊎◌, inl, inr, none, some, List, [], ◌∷◌, ◌++◌, map, Eq,
  Option-cases,
}
use mathlib.Core.Path.{subst}
use mathlib.Core.List.{append-nil, append_assoc}
use reth_crawler.Text.{Text}
use reth_crawler.BlockHashNum.Lru.{LruCache}
use reth_crawler.BlockHashNum.Presence.{Ledger, Implements, promise, promises, run-promises}
use reth_crawler.BlockHashNum.{BlockUpdate, Trace, update, run}
use reth_crawler.StateListener.{
  Arrival, Fate, ended, waiting, panicked, failed, Meanwhile, event, send_block, follow,
}
use reth_crawler.StateListener.Waiting.{
  Settled, taken, untaken, settles, acknowledged-taken, acknowledged-waits,
}

module _ {H U64 : Type 0} ⦃e : Eq H⦄ (L : LruCache H U64) where
  -- Where the loop stands: at the end of the subscription, at a pending block, at a block for which
  -- the service was gone, or at a block that the service has not taken yet.
  pub data Stopped : Fate → List (Arrival H U64) → List (BlockUpdate H U64) → Type 0 where
    at_end : Stopped ended [] []
    at_pending :
        (a : Arrival H U64) (more : List (Arrival H U64))
        → (a.block.hash ≡ none) ⊎ (a.block.number ≡ none)
        → Stopped panicked (a ∷ more) []
    at_error :
        (a : Arrival H U64) (more : List (Arrival H U64)) (message : Text)
        → a.gone ≡ some message
        → Stopped (failed message) (a ∷ more) []
    at_wait :
        (a : Arrival H U64) (more : List (Arrival H U64)) (u : BlockUpdate H U64)
        → a.block.hash ≡ some u.hash
        → Stopped waiting (a ∷ more) (u ∷ [])

  -- The service has taken the hashes of the blocks before the one at which the loop stands.
  pub record Followed (arrivals : List (Arrival H U64)) (seen : List H) (t : Trace L) (fate : Fate)
      : Type 0 where
    pub passed : List (Arrival H U64)
    pub rest : List (Arrival H U64)
    pub hashes : List H
    pub ledger : Ledger H U64
    pub in_order : arrivals ≡ passed ++ rest
    pub hashed : map (λ a. a.block.hash) passed ≡ map some hashes
    pub stands : Implements L t.service ledger
    pub saw : ledger.seen ≡ seen ++ hashes
    pub stopped : Stopped fate rest ledger.updates

  -- The service and its ledger after one block was sent.
  sent :
      (h : H) (n : U64) (tx : ℕ) (ms : List (Meanwhile H)) (t : Trace L) (s : Ledger H U64)
      → Implements L t.service s
      → s.updates ≡ []
      → let u : BlockUpdate H U64 = record { hash = h; number = n; response = tx } in
        (s' : Ledger H U64) × Implements L (send_block L h n tx ms t).service s'
        × Settled L u s.seen s'
  unfolding send_block promises promise run
  sent h n tx ms t s stands quiet =
      let u : BlockUpdate H U64 = record { hash = h; number = n; response = tx } in
      let (stands', answers) = run-promises L t s (update h n tx ∷ map (event L) ms) stands in
      (
        _,
        stands',
        settles L u ms (record s { updates = s.updates ++ u ∷ [] }) (ap (λ us. us ++ u ∷ []) quiet),
      )

  stop :
      (fate : Fate) (rest : List (Arrival H U64)) (t : Trace L) (s : Ledger H U64)
      → Implements L t.service s
      → Stopped fate rest s.updates
      → Followed rest s.seen t fate
  stop fate rest t s stands stopped = record {
    passed = [];
    rest = rest;
    hashes = [];
    ledger = s;
    in_order = refl;
    hashed = refl;
    stands = stands;
    saw = sym (append-nil s.seen);
    stopped = stopped;
  }

  pass :
      (a : Arrival H U64) (h : H) (arrivals : List (Arrival H U64)) (seen seen' : List H)
      (t : Trace L) (fate : Fate)
      → a.block.hash ≡ some h
      → seen' ≡ seen ++ (h ∷ [])
      → Followed arrivals seen' t fate
      → Followed (a ∷ arrivals) seen t fate
  pass a h arrivals seen seen' t fate named grown f = record {
    passed = a ∷ f.passed;
    rest = f.rest;
    hashes = h ∷ f.hashes;
    ledger = f.ledger;
    in_order = ap (◌∷◌ a) f.in_order;
    hashed = cc (named, f.hashed);
    stands = f.stands;
    saw = f.saw ∙ ap (λ l. l ++ f.hashes) grown ∙ append_assoc seen (h ∷ []) f.hashes;
    stopped = f.stopped;
  }

  -- One block that the service lives to be sent, and then the others.
  send_one :
      (a : Arrival H U64) (rest : List (Arrival H U64)) (h : H) (n : U64) (tx : ℕ) (t : Trace L)
      (s : Ledger H U64)
      → a.block.hash ≡ some h
      → a.block.number ≡ some n
      → a.gone ≡ none
      → Implements L t.service s
      → s.updates ≡ []
      → let t' = send_block L h n tx a.meanwhile t in
        ((s' : Ledger H U64)
          → Implements L t'.service s'
          → s'.updates ≡ []
          → Followed rest s'.seen (follow L (suc tx) rest t').0 (follow L (suc tx) rest t').1)
        → Followed (a ∷ rest) s.seen (follow L tx (a ∷ rest) t).0 (follow L tx (a ∷ rest) t).1
  unfolding follow
  send_one a rest h n tx t s named numbered alive stands quiet others =
      let Good = λ (out : Trace L × Fate). Followed (a ∷ rest) s.seen out.0 out.1 in
      let t' = send_block L h n tx a.meanwhile t in
      let (s', stands', settled) = sent h n tx a.meanwhile t s stands quiet in
      let empty = stands.updates ∙ quiet in
      elim settled [
        | untaken same waits ↦
            let unseen =
              acknowledged-waits L h n tx a.meanwhile t _ empty (stands'.updates ∙ waits) in
            let ran : follow L tx (a ∷ rest) t ≡ (t', waiting) =
              rw (named, numbered, alive, unseen, follow) refl in
            let stopped = subst (Stopped waiting (a ∷ rest)) (sym waits) (at_wait a rest _ named) in
            subst Good (sym ran) (
              subst (λ l. Followed (a ∷ rest) l t' waiting) same
                (stop waiting (a ∷ rest) t' s' stands' stopped))
        | taken grown quiet' ↦
            let acked =
              acknowledged-taken L h n tx a.meanwhile t empty (stands'.updates ∙ quiet') in
            let ran : follow L tx (a ∷ rest) t ≡ follow L (suc tx) rest t' =
              rw (named, numbered, alive, acked, follow) refl in
            subst Good (sym ran)
              (pass a h rest s.seen s'.seen _ _ named grown (others s' stands' quiet'))
      ]

  -- The loop hands the blocks of its subscription to the service in order, one at a time, whatever
  -- requests and polls come between: when it stops or waits, the service has taken exactly the blocks
  -- before the one at which the loop stands, and no update but that block's waits. It starts with a
  -- service for which no update waits.
  pub follow-Followed :
      (arrivals : List (Arrival H U64)) (tx : ℕ) (t : Trace L) (s : Ledger H U64)
      → Implements L t.service s
      → s.updates ≡ []
      → let (t', fate) = follow L tx arrivals t in Followed arrivals s.seen t' fate
  unfolding follow
  follow-Followed [] tx t s stands quiet =
      stop ended [] t s stands (subst (Stopped ended []) (sym quiet) at_end)
  follow-Followed (a ∷ rest) tx t s stands quiet =
      let Good = λ (out : Trace L × Fate). Followed (a ∷ rest) s.seen out.0 out.1 in
      let stop_here = λ (fate : Fate) (stopped : Stopped fate (a ∷ rest) []).
        stop fate (a ∷ rest) t s stands (subst (Stopped fate (a ∷ rest)) (sym quiet) stopped) in
      elim (Option-cases a.block.hash) [
        | inl pending ↦
            let ran : follow L tx (a ∷ rest) t ≡ (t, panicked) = rw (pending, follow) refl in
            subst Good (sym ran) (stop_here panicked (at_pending a rest (inl pending)))
        | inr (h, named) ↦ elim (Option-cases a.block.number) [
          | inl pending ↦
              let ran : follow L tx (a ∷ rest) t ≡ (t, panicked) =
                rw (named, pending, follow) refl in
              subst Good (sym ran) (stop_here panicked (at_pending a rest (inr pending)))
          | inr (n, numbered) ↦ elim (Option-cases a.gone) [
            | inr (message, gone) ↦
                let ran : follow L tx (a ∷ rest) t ≡ (t, failed message) =
                  rw (named, numbered, gone, follow) refl in
                subst Good (sym ran) (stop_here (failed message) (at_error a rest message gone))
            | inl alive ↦
                send_one a rest h n tx t s named numbered alive stands quiet
                  (follow-Followed rest (suc tx) (send_block L h n tx a.meanwhile t))
          ]
        ]
      ]

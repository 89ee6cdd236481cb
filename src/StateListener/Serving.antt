-- ===== src/StateListener/Serving.antt =====
-- When the subscription loop passes every block.
use reth_crawler.Prelude.{
  ℕ, suc, ◌≡◌, refl, ap, ◌∙◌, true, none, some, List, [], ◌∷◌, ◌++◌, map, Eq, any, All,
}
use reth_crawler.BlockHashNum.Lru.{LruCache}
use reth_crawler.BlockHashNum.Presence.{Ledger, Implements, promise, promises, run-promises}
use reth_crawler.BlockHashNum.{BlockUpdate, Trace, update, run}
use reth_crawler.StateListener.{Arrival, ended, Meanwhile, event, send_block, follow}
use reth_crawler.StateListener.Waiting.{takes, polled, acknowledged-taken}

module _ {H U64 : Type 0} ⦃e : Eq H⦄ (L : LruCache H U64) where
  sent_served :
      (h : H) (n : U64) (tx : ℕ) (ms : List (Meanwhile H)) (t : Trace L) (s : Ledger H U64)
      → Implements L t.service s
      → s.updates ≡ []
      → any (takes L) ms ≡ true
      → (s' : Ledger H U64) × Implements L (send_block L h n tx ms t).service s' × (s'.updates ≡ [])
  unfolding send_block promises promise run
  sent_served h n tx ms t s stands quiet woken =
      let u : BlockUpdate H U64 = record { hash = h; number = n; response = tx } in
      let (stands', answers) = run-promises L t s (update h n tx ∷ map (event L) ms) stands in
      (
        _,
        stands',
        polled L u ms (record s { updates = s.updates ++ u ∷ [] }) (ap (λ us. us ++ u ∷ []) quiet)
            woken,
      )

  -- A mined block, sent to a service that lives and is polled for an update.
  pub record IsServed (a : Arrival H U64) : Type 0 where
    pub hash : H
    pub number : U64
    pub named : a.block.hash ≡ some hash
    pub numbered : a.block.number ≡ some number
    pub alive : a.gone ≡ none
    pub woken : any (takes L) a.meanwhile ≡ true

  -- If every block is mined, and the service lives and is polled for an update after each, then the
  -- loop passes every block and ends with the subscription. It starts with a service for which no
  -- update waits.
  pub follow-ended :
      (arrivals : List (Arrival H U64)) (tx : ℕ) (t : Trace L) (s : Ledger H U64)
      → Implements L t.service s
      → s.updates ≡ []
      → All IsServed arrivals
      → (follow L tx arrivals t).1 ≡ ended
  unfolding follow
  follow-ended [] tx t s stands quiet served = refl
  follow-ended (a ∷ rest) tx t s stands quiet (a_served, served) =
      let h = a_served.hash in
      let n = a_served.number in
      let ms = a.meanwhile in
      let u : BlockUpdate H U64 = record { hash = h; number = n; response = tx } in
      let (s', stands', quiet') = sent_served h n tx ms t s stands quiet a_served.woken in
      let acked =
        acknowledged-taken L h n tx ms t (stands.updates ∙ quiet) (stands'.updates ∙ quiet') in
      let ran : follow L tx (a ∷ rest) t ≡ follow L (suc tx) rest (send_block L h n tx ms t) =
        rw (a_served.named, a_served.numbered, a_served.alive, acked, follow) refl in
      ap (λ out. out.1) ran
      ∙ follow-ended rest (suc tx) (send_block L h n tx ms t) s' stands' quiet' served

-- ===== src/BlockHashNum/Queues.antt =====
-- Every request and every update is answered once, in the order of arrival.
use mathlib.Core.List.{append_assoc, map-append, append-nil}
use reth_crawler.Prelude.{
  ℕ, ◌≡◌, refl, sym, ap, ◌∙◌, List, [], ◌∷◌, ◌++◌, map, take, drop, take-append-drop, Eq,
}
use reth_crawler.BlockHashNum.Lru.{LruCache}
use reth_crawler.BlockHashNum.{
  HashRequest, BlockUpdate, Event, request, update, wake, Trace, answer_requests, apply_updates,
  poll, is_block_hash_present, new_block, step, run,
}

module _ {H U64 : Type 0} ⦃e : Eq H⦄ (L : LruCache H U64) where
  open L use {Cache}

  -- the response channels of the requests that arrive
  unfoldable pub requested : List (Event {U64 = U64} L) → List ℕ
  requested [] = []
  requested (request hash tx ∷ events) = tx ∷ requested events
  requested (_ ∷ events) = requested events

  -- the response channels of the updates that arrive
  unfoldable pub updated : List (Event L) → List ℕ
  updated [] = []
  updated (update hash number tx ∷ events) = tx ∷ updated events
  updated (_ ∷ events) = updated events

  -- the channels that were answered, then those that still wait
  unfoldable pub channels : Trace L → List ℕ
  channels t = map (λ a. a.0) t.answers ++ map (λ r. r.response) t.service.command_rx

  unfoldable pub update_channels : Trace L → List ℕ
  update_channels t = t.acks ++ map (λ u. u.response) t.service.block_subscription_rx

  answered :
      (c : Cache) (rs : List (HashRequest H))
      → map (λ a. a.0) (answer_requests L c rs) ≡ map (λ r. r.response) rs
  unfolding answer_requests
  answered c [] = refl
  answered c (r ∷ rs) = ap (◌∷◌ r.response) (answered c rs)

  acked :
      (c : Cache) (us : List (BlockUpdate H U64))
      → (apply_updates L c us).1 ≡ map (λ u. u.response) us
  unfolding apply_updates
  acked c [] = refl
  acked c (u ∷ us) = ap (◌∷◌ u.response) (acked (L.put c u.hash u.number) us)

  -- What a queue delivers, and what stays in it.
  map-take-drop {ℓ κ} :
      {A : Type ℓ} {B : Type κ} (f : A → B) (n : ℕ) (xs : List A)
      → map f (take n xs) ++ map f (drop n xs) ≡ map f xs
  map-take-drop f n xs =
      sym (map-append f (take n xs) (drop n xs)) ∙ ap (map f) (take-append-drop n xs)

  channels-step :
      (t : Trace L) (event : Event L)
      → channels (step L t event) ≡ channels t ++ requested (event ∷ [])
  unfolding channels step requested poll is_block_hash_present new_block
  channels-step t (request hash tx) = simp (map-append, append_assoc)
  channels-step t (update hash number tx) = simp append-nil
  channels-step t (wake n m) = simp (
    map-append,
    answered,
    append_assoc,
    append-nil,
    map-take-drop (λ (r : HashRequest H). r.response) n t.service.command_rx,
  )

  update_channels-step :
      (t : Trace L) (event : Event L)
      → update_channels (step L t event) ≡ update_channels t ++ updated (event ∷ [])
  unfolding update_channels step updated poll is_block_hash_present new_block
  update_channels-step t (request hash tx) = simp append-nil
  update_channels-step t (update hash number tx) = simp (map-append, append_assoc)
  update_channels-step t (wake n m) = simp (
    acked,
    append_assoc,
    append-nil,
    map-take-drop (λ (u : BlockUpdate H U64). u.response) m t.service.block_subscription_rx,
  )

  requested-cons :
      (event : Event L) (events : List (Event L))
      → requested (event ∷ events) ≡ requested (event ∷ []) ++ requested events
  unfolding requested
  requested-cons (request hash tx) events = refl
  requested-cons (update hash number tx) events = refl
  requested-cons (wake n m) events = refl

  updated-cons :
      (event : Event L) (events : List (Event L))
      → updated (event ∷ events) ≡ updated (event ∷ []) ++ updated events
  unfolding updated
  updated-cons (request hash tx) events = refl
  updated-cons (update hash number tx) events = refl
  updated-cons (wake n m) events = refl

  -- Whatever happens, the requests that were answered, followed by those that wait, are those that
  -- were answered or waiting before, followed by those that arrived: each request is answered at
  -- most once, in the order of arrival, and none is lost. The same holds of the block updates.
  pub run_fifo :
      (t : Trace L) (events : List (Event L))
      → (channels (run L t events) ≡ channels t ++ requested events)
        × (update_channels (run L t events) ≡ update_channels t ++ updated events)
  unfolding run requested updated
  run_fifo t [] = (simp append-nil, simp append-nil)
  run_fifo t (event ∷ events) =
      let (answers, acks) = run_fifo (step L t event) events in
      (
        simp (answers, channels-step, requested-cons event events, append_assoc),
        simp (acks, update_channels-step, updated-cons event events, append_assoc),
      )

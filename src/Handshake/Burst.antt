-- ===== src/Handshake/Burst.antt =====
-- Tasks for one peer that all read the failure count before any of them writes it.
use reth_crawler.Prelude.{
  ℕ, ◌+◌, ◌<◌, ◌≡◌, refl, ap, ◌∙◌, false, List, [], ◌∷◌, arith, Eq, leb, All,
}
use reth_crawler.Text.{Text, text}
use reth_crawler.Text.Search.{contains}
use reth_crawler.Handshake.{
  Reth, World, failure_count, set_count, p2p_failure_threshold, begin_p2p, fail_p2p,
}
use reth_crawler.Handshake.Counting.{bans, bans-lookup, failure_count-set_count_self}

module _ {PeerId : Type 0} ⦃e : Eq PeerId⦄ (R : Reth PeerId) where
  open R use {NodeRecord, id, address}

  -- A task for each message begins; each keeps the count that it read.
  pub begin_all : NodeRecord → List Text → World R → World R × List (ℕ × Text)
  begin_all peer [] w = (w, [])
  begin_all peer (m ∷ ms) w =
      let (w', count) = begin_p2p R peer w in
      let (w'', tasks) = begin_all peer ms w' in (w'', (count, m) ∷ tasks)

  -- Then each of them fails with its message.
  pub fail_all : NodeRecord → List (ℕ × Text) → World R → World R
  fail_all peer [] w = w
  fail_all peer ((count, m) ∷ tasks) w = fail_all peer tasks (fail_p2p R peer count m w)

  pub burst : NodeRecord → List Text → World R → World R
  burst peer ms w = let (w', tasks) = begin_all peer ms w in fail_all peer tasks w'

  abbrev Counts : Text → Type 0
  Counts m = contains m (text "Too many peers") ≡ false

  abbrev Task : ℕ → ℕ × Text → Type 0
  Task n (count, m) = (count ≡ n) × Counts m

  begin_all_tasks :
      (peer : NodeRecord) (ms : List Text) (w : World R)
      → All Counts ms
      → All (Task (failure_count R (id peer) w)) (begin_all peer ms w).1
        × (bans (begin_all peer ms w).0.calls ≡ bans w.calls)
  unfolding begin_all begin_p2p
  begin_all_tasks peer [] w h = (tt, refl)
  begin_all_tasks peer (m ∷ ms) w h =
      let (tasks, same) = begin_all_tasks peer ms (begin_p2p R peer w).0 h.1 in
      (((refl, h.0), tasks), same ∙ bans-lookup w.calls (id peer))

  fail_once :
      (peer : NodeRecord) (count : ℕ) (m : Text) (w : World R)
      → count + 1 < p2p_failure_threshold
      → Counts m
      → fail_p2p R peer count m w ≡ set_count R (id peer) (count + 1) w
  unfolding fail_p2p
  fail_once peer count m w h k =
      let below : leb p2p_failure_threshold (count + 1) ≡ false = ground arith in rw (k, below)

  fail_all_count :
      (peer : NodeRecord) (n : ℕ) (tasks : List (ℕ × Text)) (w : World R)
      → n + 1 < p2p_failure_threshold
      → All (Task n) tasks
      → failure_count R (id peer) w ≡ n + 1
      → (failure_count R (id peer) (fail_all peer tasks w) ≡ n + 1)
        × (bans (fail_all peer tasks w).calls ≡ bans w.calls)
  unfolding fail_all
  fail_all_count peer n [] w h k now = (now, refl)
  fail_all_count peer n ((count, m) ∷ tasks) w h ((is_n, counts), k) now =
      let once : fail_p2p R peer count m w ≡ set_count R (id peer) (n + 1) w =
        rw is_n (fail_once peer n m w h counts) in
      let w' = set_count R (id peer) (n + 1) w in
      let same : fail_all peer ((count, m) ∷ tasks) w ≡ fail_all peer tasks w' =
        ap (fail_all peer tasks) once in
      let (now', banned) =
        fail_all_count peer n tasks w' h k (failure_count-set_count_self R (id peer) (n + 1) w) in
      (ap (failure_count R (id peer)) same ∙ now', ap (λ v. bans v.calls) same ∙ banned)

  -- However many tasks for one peer read the count before the first of them fails, their failures
  -- count once: the stored count goes up by one and nothing is banned, if the count was two or more
  -- below the threshold and every failure is of a kind that counts.
  pub burst_counts_once :
      (peer : NodeRecord) (m : Text) (ms : List Text) (w : World R)
      → failure_count R (id peer) w + 1 < p2p_failure_threshold
      → All (λ k. contains k (text "Too many peers") ≡ false) (m ∷ ms)
      → (failure_count R (id peer) (burst peer (m ∷ ms) w) ≡ failure_count R (id peer) w + 1)
        × (bans (burst peer (m ∷ ms) w).calls ≡ bans w.calls)
  unfolding burst begin_all fail_all begin_p2p
  burst_counts_once peer m ms w h k =
      let n = failure_count R (id peer) w in
      let w' = (begin_p2p R peer w).0 in
      let (tasks, same) = begin_all_tasks peer ms w' k.1 in
      let w'' = (begin_all peer ms w').0 in
      let (count, banned) =
        fail_all_count peer n (begin_all peer ms w').1 (set_count R (id peer) (n + 1) w'') h tasks
          (failure_count-set_count_self R (id peer) (n + 1) w'') in
      let first : burst peer (m ∷ ms) w
          ≡ fail_all peer (begin_all peer ms w').1 (set_count R (id peer) (n + 1) w'') =
        ap (fail_all peer (begin_all peer ms w').1) (fail_once peer n m w'' h k.0) in
      (
        ap (failure_count R (id peer)) first ∙ count,
        ap (λ v. bans v.calls) first ∙ banned ∙ same ∙ bans-lookup w.calls (id peer),
      )

-- ===== src/Concurrent/Listeners.antt =====
-- The listeners of all nodes of the crawler (bins/reth-crawler/src/crawler/service.rs): each has its
-- own failure counts and tasks, and all write to one database.
use reth_crawler.Prelude.{
  ℕ, ◌≡◌, inl, inr, List, [], Outcome, done, Eq, ◌==◌, nat_eq, All, if◌then◌else◌, Bool-cases,
}
use reth_crawler.Types.{PeerData}
use reth_crawler.PeerDb.{PeerDb}
use reth_crawler.PeerDb.Collection.{upsert_all}
use reth_crawler.PeerDb.Keeper.{Keeper}
use reth_crawler.Handshake.{Reth, World}
use reth_crawler.Listener.{Sockets}
use reth_crawler.Concurrent.{Flight, Heard, State, start, Step}
use reth_crawler.Concurrent.Counts.{Counted, Justified}
use reth_crawler.Concurrent.Invariant.{Fit, Recorded, IsSound}
use reth_crawler.Concurrent.Sound.{Step-IsSound, start-IsSound}

module _ {PeerId A S P : Type 0} ⦃e : Eq PeerId⦄ (R : Reth PeerId) (db : PeerDb A S P)
    (N : Sockets R) where
  -- What one listener has for itself.
  pub record Local : Type 0 where
    pub world : World R
    pub flights : List (Flight R db N)
    pub failures : PeerId → ℕ
    pub heard : List (Heard R db N)

  -- The listeners by their numbers, the database, and what has happened in all of them.
  pub record Crawl : Type 0 where
    pub locals : ℕ → Local
    pub store : db.Store
    pub outcomes : List (Outcome (Unit {0}))
    pub log : List PeerData

  -- what a listener sees, and the crawl with what it leaves
  abbrev pub view : ℕ → Crawl → State R db N
  view i c = record {
    world = (c.locals i).world;
    store = c.store;
    flights = (c.locals i).flights;
    outcomes = c.outcomes;
    log = c.log;
    failures = (c.locals i).failures;
    heard = (c.locals i).heard;
  }

  abbrev pub local : State R db N → Local
  local s = record { world = s.world; flights = s.flights; failures = s.failures; heard = s.heard }

  abbrev pub put_back : ℕ → State R db N → Crawl → Crawl
  put_back i s c = record {
    locals = λ k. if k == i then local s else c.locals k;
    store = s.store;
    outcomes = s.outcomes;
    log = s.log;
  }

  abbrev pub begin : db.Store → Crawl
  begin store = record {
    locals = λ i. local (start R db N store);
    store = store;
    outcomes = [];
    log = [];
  }

  -- Any number of moves of any listeners.
  pub data Moves (c : Crawl) : Crawl → Type 0 where
    here : Moves c c
    next :
        {d : Crawl} {s : State R db N} (i : ℕ)
        → Moves c d
        → Step R db N (view i d) s
        → Moves c (put_back i s d)

  module _ (K : Keeper db) (ps : List PeerData) where
    pub record LocalIsSound (l : Local) : Type 0 where
      pub counted : Counted R l.world l.failures
      pub fit : All (Fit R db N K ps l.failures) l.flights
      pub bans : All (Justified R l.failures l.heard) l.world.calls

    -- Every listener is sound, and so is what they share.
    pub record CrawlIsSound (c : Crawl) : Type 0 where
      pub locals : (i : ℕ) → LocalIsSound (c.locals i)
      pub kept : All (λ o. o ≡ done tt) c.outcomes → K.Keeps c.store (upsert_all c.log ps)
      pub recorded : All (Recorded R db N K ps) c.log

    view-IsSound : (i : ℕ) (c : Crawl) → CrawlIsSound c → IsSound R db N K ps (view i c)
    view-IsSound i c h = record {
      counted = record {
        stored = (h.locals i).counted.stored;
        stored_le = (h.locals i).counted.stored_le;
      };
      fit = (h.locals i).fit;
      bans = (h.locals i).bans;
      kept = h.kept;
      recorded = h.recorded;
    }

    local-IsSound : (s : State R db N) → IsSound R db N K ps s → LocalIsSound (local s)
    local-IsSound s h = record { counted = h.counted; fit = h.fit; bans = h.bans }

    put_back-IsSound :
        (i : ℕ) (s : State R db N) (c : Crawl)
        → IsSound R db N K ps s
        → CrawlIsSound c
        → CrawlIsSound (put_back i s c)
    put_back-IsSound i s c h k = record {
      locals = λ j. elim (Bool-cases (j == i)) [
        | inl same ↦ rw same (local-IsSound s h)
        | inr other ↦ rw other (k.locals j)
      ];
      kept = h.kept;
      recorded = h.recorded;
    }

    begin-IsSound : (store : db.Store) → K.Keeps store ps → CrawlIsSound (begin store)
    begin-IsSound store h =
        let s = start-IsSound R db N K ps store h in
        record {
          locals = λ i. local-IsSound (start R db N store) s;
          kept = s.kept;
          recorded = s.recorded;
        }

    -- However the tasks of all listeners interleave: in each listener no failure count reaches the
    -- threshold, and an address is banned only if a peer at it failed that often, failed the eth
    -- handshake, or gave no client version; only records of peers with a client version are saved; and
    -- unless a task has panicked, the database, which all listeners share, keeps the collection that
    -- it kept at the start with every record that was saved, of those with one id the last.
    pub Moves-CrawlIsSound :
        (store : db.Store) {c : Crawl} → K.Keeps store ps → Moves (begin store) c → CrawlIsSound c
    Moves-CrawlIsSound store h here = begin-IsSound store h
    Moves-CrawlIsSound store h (next {d} {s} i moves step) =
        let sound = Moves-CrawlIsSound store h moves in
        put_back-IsSound i s d (Step-IsSound R db N K ps step (view-IsSound i d sound)) sound

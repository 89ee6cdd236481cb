-- ===== src/Concurrent/Sound.antt =====
-- What holds of the shared state, however the tasks of the listener interleave.
use mathlib.Core.List.{mem-cons_self, mem-cons_of_mem}
use mathlib.Core.Path.{subst}
use reth_crawler.Prelude.{
  refl, sym, inl, inr, List, [], ◌∷◌, ◌++◌, ok, err, Eq, arith, Bool-cases, All, All-map,
  All-append, All-middle, lookup,
}
use reth_crawler.Text.Search.{is_empty}
use reth_crawler.Types.{PeerData}
use reth_crawler.PeerDb.{PeerDb, save_peer}
use reth_crawler.PeerDb.Collection.{upsert_all, upsert_all-append}
use reth_crawler.PeerDb.Keeper.{Keeper, save_peer-Keeps}
use reth_crawler.Handshake.{Reth, Call, begin_p2p, collect}
use reth_crawler.Handshake.Races.{count_failure}
use reth_crawler.Listener.Saving.{nil_of_is_empty}
use reth_crawler.Listener.{Session, Sockets, collect_session}
use reth_crawler.Concurrent.{
  Heard, Flight, shaking, greeting, collecting, collecting_session, Reply, State, start, discover,
  connect, save, refuse, hear, resume, Step, discovers, connects, goes_on, Steps, here, next,
}
use reth_crawler.Concurrent.Counts.{
  Refused, Justified, Justified-mono, count_failure-le, fail-Counted, fail-Justified,
}
use reth_crawler.Concurrent.Invariant.{Fit, Recorded, of_peer, of_session, IsSound, Fit-mono}

module _ {PeerId A S P : Type 0} ⦃e : Eq PeerId⦄ (R : Reth PeerId) (db : PeerDb A S P)
    (N : Sockets R) (K : Keeper db) (ps : List PeerData) where
  open R use {NodeRecord, id, address}

  discover-IsSound :
      (peer : NodeRecord) (s : State R db N)
      → IsSound R db N K ps s
      → IsSound R db N K ps (discover R db N peer s)
  unfolding discover begin_p2p
  discover-IsSound peer s h = record {
    counted = record { stored = h.counted.stored; stored_le = h.counted.stored_le };
    fit = ((h.counted.stored (id peer), h.counted.stored_le (id peer)), h.fit);
    bans =
        All-append (Justified R s.failures s.heard) s.world.calls (Call.send_lookup (id peer) ∷ [])
          h.bans (tt, tt);
    kept = h.kept;
    recorded = h.recorded;
  }

  connect-IsSound :
      (session : Session PeerId N.SocketAddr) (s : State R db N)
      → IsSound R db N K ps s
      → IsSound R db N K ps (connect R db N session s)
  unfolding connect
  connect-IsSound session s h = elim (Bool-cases (is_empty session.client_version)) [
    | inl nothing ↦
        rw (nothing, connect)
          (record {
            counted = h.counted;
            fit = h.fit;
            bans = h.bans;
            kept = λ ends. h.kept ends.1;
            recorded = h.recorded;
          })
    | inr given ↦
        rw (given, connect)
          (record {
            counted = record { stored = h.counted.stored; stored_le = h.counted.stored_le };
            fit = (given, h.fit);
            bans =
                All-append (Justified R s.failures s.heard) s.world.calls
                  (Call.remove_peer session.peer_id ∷ []) h.bans (tt, tt);
            kept = h.kept;
            recorded = h.recorded;
          })
  ]

  save-IsSound :
      (p : PeerData) (s : State R db N)
      → Recorded R db N K ps p
      → IsSound R db N K ps s
      → IsSound R db N K ps (save R db N p s)
  unfolding save upsert_all
  save-IsSound p s good h = record {
    counted = h.counted;
    fit = h.fit;
    bans = h.bans;
    kept = λ ends.
        let before = upsert_all s.log ps in
        subst (K.Keeps (save_peer db p s.store).0) (sym (upsert_all-append s.log (p ∷ []) ps))
          (save_peer-Keeps db K p s.store before (h.kept ends.1) ends.0);
    recorded = All-append (Recorded R db N K ps) s.log (p ∷ []) h.recorded (good, tt);
  }

  -- A ban is sound if an answer that was heard is a reason for it.
  refuse-IsSound :
      (peer : NodeRecord) (s : State R db N)
      → Refused R s.heard peer
      → IsSound R db N K ps s
      → IsSound R db N K ps (refuse R db N peer s)
  refuse-IsSound peer s reason h = record {
    counted = record { stored = h.counted.stored; stored_le = h.counted.stored_le };
    fit = h.fit;
    bans =
        All-append (Justified R s.failures s.heard) s.world.calls (Call.ban_ip (address peer) ∷ [])
          h.bans ((peer, refl, inr reason), tt);
    kept = λ ends. h.kept ends.1;
    recorded = h.recorded;
  }

  -- What is heard justifies what was justified before.
  hear-IsSound :
      (flight : Flight R db N) (reply : Reply R db N flight) (s : State R db N)
      → IsSound R db N K ps s
      → IsSound R db N K ps (hear R db N flight reply s)
  hear-IsSound (shaking peer count) reply s h = h
  hear-IsSound (greeting peer hello) reply s h =
      let answer : Heard R db N = (peer, hello, reply) in
      record {
        counted = h.counted;
        fit = h.fit;
        bans =
            All-map (Justified R s.failures s.heard) (Justified R s.failures (answer ∷ s.heard))
              s.world.calls
              (Justified-mono R s.failures s.failures s.heard (answer ∷ s.heard) (λ p. omega arith)
                (λ x m. mem-cons_of_mem answer m))
              h.bans;
        kept = h.kept;
        recorded = h.recorded;
      }
  hear-IsSound (collecting peer hello status) reply s h = h
  hear-IsSound (collecting_session session) reply s h = h

  -- A task that goes on keeps the state sound.
  resume-IsSound :
      (flight : Flight R db N) (reply : Reply R db N flight) (s : State R db N)
      → Fit R db N K ps s.failures flight
      → IsSound R db N K ps s
      → IsSound R db N K ps (resume R db N flight reply (hear R db N flight reply s))
  unfolding resume
  resume-IsSound (shaking peer count) (err message) s (lt, le) h =
      let g = count_failure R peer message s.failures in
      record {
        counted = fail-Counted R peer count message s.world s.failures le h.counted;
        fit =
            All-map (Fit R db N K ps s.failures) (Fit R db N K ps g) s.flights
              (Fit-mono R db N K ps s.failures g (count_failure-le R peer message s.failures))
              h.fit;
        bans = fail-Justified R peer count message s.world s.failures s.heard le h.bans;
        kept = λ ends. h.kept ends.1;
        recorded = h.recorded;
      }
  resume-IsSound (shaking peer count) (ok hello) s held h = record {
    counted = h.counted;
    fit = (tt, h.fit);
    bans = h.bans;
    kept = h.kept;
    recorded = h.recorded;
  }
  resume-IsSound (greeting peer hello) (err message) s held h =
      refuse-IsSound peer (hear R db N (greeting peer hello) (err message) s)
        (record {
          hello = hello;
          reply = err message;
          answered = mem-cons_self;
          reason = inl (message, refl);
        })
        (hear-IsSound (greeting peer hello) (err message) s h)
  resume-IsSound (greeting peer hello) (ok status) s held h =
      let after = hear R db N (greeting peer hello) (ok status) s in
      let sound = hear-IsSound (greeting peer hello) (ok status) s h in
      elim (Bool-cases (is_empty hello.client_version)) [
        | inl nothing ↦
            rw (nothing, resume)
              (refuse-IsSound peer after
                (record {
                  hello = hello;
                  reply = ok status;
                  answered = mem-cons_self;
                  reason = inr (nil_of_is_empty hello.client_version nothing);
                })
                sound)
        | inr given ↦
            rw (given, resume)
              (record {
                counted = sound.counted;
                fit = (given, sound.fit);
                bans = sound.bans;
                kept = sound.kept;
                recorded = sound.recorded;
              })
      ]
  resume-IsSound (collecting peer hello status) answers s given h =
      save-IsSound (collect R peer hello status answers) s (of_peer peer hello status answers given)
        h
  resume-IsSound (collecting_session session) answers s given h =
      save-IsSound (collect_session R db N session answers) s (of_session session answers given) h

  pub Step-IsSound :
      {s t : State R db N} → Step R db N s t → IsSound R db N K ps s → IsSound R db N K ps t
  Step-IsSound {s} (discovers peer) h = discover-IsSound peer s h
  Step-IsSound {s} (connects session) h = connect-IsSound session s h
  Step-IsSound {s} (goes_on before after flight reply w) h =
      let (now, others) =
        All-middle (Fit R db N K ps s.failures) before flight after
          (subst (All (Fit R db N K ps s.failures)) w h.fit) in
      resume-IsSound flight reply (record s { flights = before ++ after }) now
        (record {
          counted = h.counted;
          fit = others;
          bans = h.bans;
          kept = h.kept;
          recorded = h.recorded;
        })

  pub start-IsSound :
      (store : db.Store) → K.Keeps store ps → IsSound R db N K ps (start R db N store)
  unfolding lookup upsert_all
  start-IsSound store h = record {
    counted = record { stored = λ p. omega arith; stored_le = λ p. omega arith };
    fit = tt;
    bans = tt;
    kept = λ ends. h;
    recorded = tt;
  }

  -- However the tasks of a listener interleave, and however many there are: no failure count reaches
  -- the threshold; an address is banned only if a peer at it failed that often, failed the eth
  -- handshake, or gave no client version; only records of peers with a client version are saved; and
  -- unless a task has panicked, the database keeps the collection that it kept at the start with every
  -- record that was saved, of those with one id the last.
  pub Steps-IsSound :
      (store : db.Store) {s : State R db N}
      → K.Keeps store ps
      → Steps R db N (start R db N store) s
      → IsSound R db N K ps s
  Steps-IsSound store h here = start-IsSound store h
  Steps-IsSound store h (next steps step) = Step-IsSound step (Steps-IsSound store h steps)

-- ===== src/System/Grows.antt =====
-- What a move of a listener adds to the records that were saved, and to how the tasks ended.
use mathlib.Core.List.{append-nil}
use reth_crawler.Prelude.{
  ◌≡◌, refl, inl, inr, Bool-cases, List, [], ◌∷◌, ◌++◌, Outcome, ok, err, done, Eq, sym, ◌∙◌,
}
use reth_crawler.Text.Search.{is_empty}
use reth_crawler.Types.{PeerData}
use reth_crawler.PeerDb.{PeerDb, save_peer}
use reth_crawler.Handshake.{Reth, collect}
use reth_crawler.Listener.{Sockets, collect_session}
use reth_crawler.Concurrent.{
  Flight, shaking, greeting, collecting, collecting_session, Reply, State, discover, connect, save,
  refuse, finish, resume, hear, Step, discovers, connects, goes_on,
}

module _ {PeerId A S P : Type 0} ⦃e : Eq PeerId⦄ (R : Reth PeerId) (db : PeerDb A S P)
    (N : Sockets R) where
  -- Records and ends that come after the others.
  pub record Extends (s t : State R db N) : Type 0 where
    pub saved : List PeerData
    pub ended : List (Outcome (Unit {0}))
    pub log : t.log ≡ s.log ++ saved
    pub outcomes : t.outcomes ≡ ended ++ s.outcomes

  quiet : (s t : State R db N) → t.log ≡ s.log → t.outcomes ≡ s.outcomes → Extends s t
  quiet s t l o = record { saved = []; ended = []; log = l ∙ sym (append-nil s.log); outcomes = o }

  -- A task that ends without a record.
  ends :
      (s t : State R db N) (out : Outcome (Unit {0}))
      → t.log ≡ s.log
      → t.outcomes ≡ out ∷ s.outcomes
      → Extends s t
  ends s t out l o = record {
    saved = [];
    ended = out ∷ [];
    log = l ∙ sym (append-nil s.log);
    outcomes = o;
  }

  save-Extends : (p : PeerData) (s : State R db N) → Extends s (save R db N p s)
  unfolding save
  save-Extends p s = record {
    saved = p ∷ [];
    ended = (save_peer db p s.store).1 ∷ [];
    log = refl;
    outcomes = refl;
  }

  resume-Extends :
      (flight : Flight R db N) (reply : Reply R db N flight) (s : State R db N)
      → Extends s (resume R db N flight reply s)
  unfolding resume
  resume-Extends (shaking peer count) (err message) s = ends s _ (done tt) refl refl
  resume-Extends (shaking peer count) (ok hello) s = quiet s _ refl refl
  resume-Extends (greeting peer hello) (err message) s = ends s _ (done tt) refl refl
  resume-Extends (greeting peer hello) (ok status) s =
      elim (Bool-cases (is_empty hello.client_version)) [
        | inl nothing ↦ rw (nothing, resume) (ends s (refuse R db N peer s) (done tt) refl refl)
        | inr given ↦ rw (given, resume) (quiet s _ refl refl)
      ]
  resume-Extends (collecting peer hello status) answers s =
      save-Extends (collect R peer hello status answers) s
  resume-Extends (collecting_session session) answers s =
      save-Extends (collect_session R db N session answers) s

  pub Step-Extends : {s t : State R db N} → Step R db N s t → Extends s t
  unfolding discover connect
  Step-Extends {s} (discovers peer) = quiet s _ refl refl
  Step-Extends {s} (connects session) = elim (Bool-cases (is_empty session.client_version)) [
    | inl nothing ↦ rw (nothing, connect) (ends s (finish R db N (done tt) s) (done tt) refl refl)
    | inr given ↦ rw (given, connect) (quiet s _ refl refl)
  ]
  Step-Extends {s} (goes_on before after flight reply w) =
      let on =
        resume-Extends flight reply
          (hear R db N flight reply (record s { flights = before ++ after })) in
      record { saved = on.saved; ended = on.ended; log = on.log; outcomes = on.outcomes }

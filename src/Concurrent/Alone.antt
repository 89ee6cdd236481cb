-- ===== src/Concurrent/Alone.antt =====
-- A task that runs from its start to its end before any other goes on.
use mathlib.Core.Path.{subst}
use reth_crawler.Prelude.{
  ◌≡◌, refl, sym, ap, ◌∙◌, inl, inr, true, [], ◌∷◌, Result, ok, err, done, Eq, Bool-cases,
}
use reth_crawler.Text.{Text}
use reth_crawler.Text.Search.{is_empty}
use reth_crawler.PeerDb.{PeerDb}
use reth_crawler.Handshake.{
  Reth, HelloMessage, Status, Answers, Call, call, begin_p2p, handshake_p2p_handle, collect,
}
use reth_crawler.Listener.{
  Session, Sockets, session_established, peer_added, peer_removed, session_closed, handle_event,
  collect_session,
}
use reth_crawler.Listener.Saving.{handshake_and_save_peer-Ends, no_p2p, no_eth, no_version, saves}
use reth_crawler.Listener.Streams.{Job, found, event, run_job, saved}
use reth_crawler.Concurrent.{
  shaking, greeting, collecting, collecting_session, State, discover, connect, finish, refuse, hear,
  resume, Step, discovers, connects, goes_on, here, next,
}
use reth_crawler.Concurrent.Endings.{
  Alone, not_empty, greeted, welcomed, idle-Alone, save-Alone, nothing-Alone,
}

module _ {PeerId A S P : Type 0} ⦃e : Eq PeerId⦄ (R : Reth PeerId) (db : PeerDb A S P)
    (N : Sockets R) where
  open R use {NodeRecord, P2pStream, id, address}

  found-Alone :
      (peer : NodeRecord) (p2p : Result Text (P2pStream × HelloMessage))
      (eth : P2pStream → Result Text Status) (answers : Answers) (s : State R db N)
      → Alone R db N (found peer p2p eth answers) s
  unfolding run_job resume handshake_p2p_handle saved begin_p2p discover is_empty
  found-Alone peer p2p eth answers s =
      let job : Job R db N = found peer p2p eth answers in
      let count = (begin_p2p R peer s.world).1 in
      let at = record s { world = (begin_p2p R peer s.world).0 } in
      elim (handshake_and_save_peer-Ends R db peer p2p eth answers s.world s.store) [
        | no_p2p message failed end ↦
            idle-Alone R db N job s (resume R db N (shaking peer count) (err message) at)
              (next (next here (discovers peer))
                (goes_on [] s.flights (shaking peer count) (err message) refl))
              refl refl refl
              (sym (
                ap (λ x. x.world) end ∙ ap (λ r. (handshake_p2p_handle R peer r s.world).0) failed))
              (sym (ap (λ x. x.store) end)) (rw (failed, saved) refl)
        | no_eth stream hello message greets failed end ↦
            idle-Alone R db N job s
              (refuse R db N peer (hear R db N (greeting peer hello) (err message) at))
              (next (greeted R db N peer hello s)
                (goes_on [] s.flights (greeting peer hello) (err message) refl))
              refl refl refl (sym (ap (λ x. x.world) end)) (sym (ap (λ x. x.store) end))
              (rw (greets, saved) (rw failed refl))
        | no_version stream hello status greets passed nothing end ↦
            let empty : is_empty hello.client_version ≡ true = rw nothing refl in
            let after = hear R db N (greeting peer hello) (ok status) at in
            let goes : resume R db N (greeting peer hello) (ok status) after
                ≡ refuse R db N peer after =
              rw (empty, resume) refl in
            idle-Alone R db N job s (refuse R db N peer after)
              (next (greeted R db N peer hello s) (
                subst (Step R db N (record at { flights = greeting peer hello ∷ s.flights })) goes
                  (goes_on [] s.flights (greeting peer hello) (ok status) refl)))
              refl refl refl (sym (ap (λ x. x.world) end)) (sym (ap (λ x. x.store) end))
              (rw (greets, saved) (rw (passed, empty) refl))
        | saves stream hello status greets passed given end ↦
            let named = not_empty R db N hello.client_version given in
            let p = collect R peer hello status answers in
            save-Alone R db N job p s (hear R db N (greeting peer hello) (ok status) at)
              (next (welcomed R db N peer hello status s named)
                (goes_on [] s.flights (collecting peer hello status) answers refl))
              refl refl refl refl (sym (ap (λ x. x.world) end)) (sym (ap (λ x. x.store) end))
              (sym (ap (λ x. x.outcome) end)) (rw (greets, saved) (rw (passed, named) refl))
      ]

  session-Alone :
      (session : Session PeerId N.SocketAddr) (answers : Answers) (s : State R db N)
      → Alone R db N (event (session_established session) answers) s
  unfolding run_job resume saved connect handle_event
  session-Alone session answers s =
      let job : Job R db N = event (session_established session) answers in
      elim (Bool-cases (is_empty session.client_version)) [
        | inl nothing ↦
            let goes : connect R db N session s ≡ finish R db N (done tt) s =
              rw (nothing, connect) refl in
            idle-Alone R db N job s (finish R db N (done tt) s)
              (next here (subst (Step R db N s) goes (connects session))) refl refl refl
              (sym (rw (nothing, run_job, handle_event) refl))
              (sym (rw (nothing, run_job, handle_event) refl)) (rw (nothing, saved) refl)
        | inr given ↦
            let at = record s { world = call R (Call.remove_peer session.peer_id) s.world } in
            let goes : connect R db N session s
                ≡ record at { flights = collecting_session session ∷ s.flights } =
              rw (given, connect) refl in
            save-Alone R db N job (collect_session R db N session answers) s at
              (next (next here (subst (Step R db N s) goes (connects session)))
                (goes_on [] s.flights (collecting_session session) answers refl))
              refl refl refl refl (sym (rw (given, run_job, handle_event) refl))
              (sym (rw (given, run_job, handle_event) refl))
              (sym (rw (given, run_job, handle_event) refl)) (rw (given, saved) refl)
      ]

  pub run_job-Alone : (job : Job R db N) (s : State R db N) → Alone R db N job s
  unfolding run_job handle_event saved
  run_job-Alone (found peer p2p eth answers) s = found-Alone peer p2p eth answers s
  run_job-Alone (event (session_established session) answers) s = session-Alone session answers s
  run_job-Alone (event (peer_added p) answers) s = nothing-Alone R db N _ s refl refl refl
  run_job-Alone (event (peer_removed p) answers) s = nothing-Alone R db N _ s refl refl refl
  run_job-Alone (event (session_closed p reason) answers) s =
      nothing-Alone R db N _ s refl refl refl

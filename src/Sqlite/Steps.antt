-- ===== src/Sqlite/Steps.antt =====
-- When the rows of an answer of `SqlPeerDB` are not all read, and what is then found of one peer.
use reth_crawler.Prelude.{◌≡◌, false, Option, some, List, [], ◌∷◌, Result, ok}
use reth_crawler.Text.{Text}
use reth_crawler.Types.{PeerData}
use reth_crawler.Sql.{Condition, always, equals, greater, question, select, star}
use reth_crawler.Sql.Stepping.{all_rows}
use reth_crawler.Sql.Partial.{OneOr}
use reth_crawler.Sqlite.{Driver, table}

module _ (D : Driver) where
  open D use {engine, Value, Connection, Error, text}

  -- A step failed in the answer to a query, so that rows may be missing.
  abbrev pub StepFails : Condition → List Value → Connection → Type 0
  StepFails condition args c =
      (items : List (Result Error (List Value))) × (engine.query_map (select star table condition)
          args c
        ≡ ok items)
      × (all_rows items ≡ false)

  -- the same for the queries of all peers, of those seen after a time, and of those with an id or an
  -- address
  abbrev pub ScanStepFails : Connection → Type 0
  ScanStepFails c = StepFails always [] c

  abbrev pub SeenStepFails : Text → Connection → Type 0
  SeenStepFails time c = StepFails (greater "last_seen" (question 1)) (text time ∷ []) c

  abbrev pub IdStepFails : Text → Connection → Type 0
  IdStepFails id c = StepFails (equals "id" (question 1)) (text id ∷ []) c

  abbrev pub IpStepFails : Text → Connection → Type 0
  IpStepFails ip c = StepFails (equals "ip" (question 1)) (text ip ∷ []) c

  -- What is found under the id is this peer alone, or, if a step failed, nothing.
  abbrev pub FoundAlone : Text → PeerData → Connection → Option (List PeerData) → Type 0
  FoundAlone id p c out =
      (found : List PeerData) × (out ≡ some found) × OneOr (IdStepFails id c) found p

-- ===== src/Sqlite/Opening.antt =====
-- `SqlPeerDB::new` of db/src/db.rs.
use mathlib.Core.Path.{subst}
use reth_crawler.Prelude.{
  ◌≡◌, refl, sym, ◌∙◌, inl, inr, Result, ok, err, Result-cases, Outcome, done, panic, done-ne-panic,
  done-injective,
}
use reth_crawler.Text.{Text, text}

abbrev pub file : Text
file = text "peers_data.db"

-- `open_file` is `Connection::open`, and `create_table` the call that executes `CREATE TABLE IF NOT
-- EXISTS`, with the columns of `Sqlite.schema`; both are unwrapped
unfoldable pub open_sql_peer_db {ℓ κ} :
    {E : Type ℓ} {C : Type κ} → (Text → Result E C) → (C → Result E (Unit {0})) → Outcome C
open_sql_peer_db open_file create_table = elim (open_file file) [
  | err e ↦ panic
  | ok db ↦ elim (create_table db) [ err e ↦ panic | ok created ↦ done db ]
]

-- What holds of every connection that `Connection::open` gives for the file holds of what `new` gives.
pub open_sql_peer_db_lem {ℓ κ ν} :
    {E : Type ℓ} {C : Type κ} (Q : C → Type ν) (open_file : Text → Result E C)
    (create_table : C → Result E (Unit {0})) (opened : C)
    → ((db : C) → open_file file ≡ ok db → Q db)
    → open_sql_peer_db open_file create_table ≡ done opened
    → Q opened
unfolding open_sql_peer_db
open_sql_peer_db_lem Q open_file create_table opened h q = elim (Result-cases (open_file file)) [
  | inr (e, failed) ↦
      let ran : open_sql_peer_db open_file create_table ≡ panic =
        rw (failed, open_sql_peer_db) refl in
      absurd (done-ne-panic (sym q ∙ ran))
  | inl (db, opens) ↦ elim (Result-cases (create_table db)) [
    | inr (e, failed) ↦
        let ran : open_sql_peer_db open_file create_table ≡ panic =
          rw (opens, failed, open_sql_peer_db) refl in
        absurd (done-ne-panic (sym q ∙ ran))
    | inl (created, worked) ↦
        let ran : open_sql_peer_db open_file create_table ≡ done db =
          rw (opens, worked, open_sql_peer_db) refl in
        subst Q (done-injective (sym ran ∙ q)) (h db opens)
  ]
]

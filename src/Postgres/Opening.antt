-- ===== src/Postgres/Opening.antt =====
-- `PostgreSQLPeerDb::new` of db/src/db.rs.
use reth_crawler.Prelude.{Option, none, some, ◌++◌, Result, ok, err, Outcome, done, panic}
use reth_crawler.Text.{Text, text}

unfoldable pub connection_string : Text → Text → Text → Text → Text
connection_string username pass ip_addr db_name =
    text "postgresql://"
    ++ username
    ++ text ":"
    ++ pass
    ++ text "@"
    ++ ip_addr
    ++ text "/"
    ++ db_name

-- `var` is `std::env::var`, and `connect` is `tokio_postgres::connect`, whose connection then runs
-- as a task of its own
unfoldable pub open_postgres_peer_db {ℓ κ} :
    {E : Type ℓ} {C : Type κ} → (Text → Option Text) → (Text → Result E C) → Outcome C
unfolding connection_string
open_postgres_peer_db var connect = elim (var (text "POSTGRES_USERNAME")) [
  | none ↦ panic
  | some username ↦ elim (var (text "POSTGRES_PASS")) [
    | none ↦ panic
    | some pass ↦ elim (var (text "IP_ADDR")) [
      | none ↦ panic
      | some ip_addr ↦ elim (var (text "DB_NAME")) [
        | none ↦ panic
        | some db_name ↦ elim (connect (connection_string username pass ip_addr db_name)) [
          | err e ↦ panic
          | ok db ↦ done db
        ]
      ]
    ]
  ]
]

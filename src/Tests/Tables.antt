-- ===== src/Tests/Tables.antt =====
-- SQLite over a list of rows, and a peer through it.
use mathlib.Core.List.{Perm, filter_map}
use mathlib.Core.List.Perm
use mathlib.Core.Bool.{false≢true}
use reth_crawler.Prelude.{
  ◌∙◌, FailsOr, ℕ, ◌≡◌, refl, sym, ap, Bool, false, not, Option, none, some, List, [], ◌∷◌, ◌++◌,
  to_option, map, keep, Result, ok, err, ok-injective, ◌==◌, list_eq, nat_eq, arith, All,
}
use reth_crawler.Text.{Text, text, text_ltb, split, join}
use reth_crawler.Types.{PeerData, InRange, sql_scan_error, sql_query_item_error}
use reth_crawler.Sql.{
  Row, Selection, Values, Statement, insert_or_replace, select, assigned, satisfies, project,
}
use reth_crawler.Sql.Stepping.{IsStepTable, Replaces, all_rows}
use reth_crawler.Sql.Partial.{AllOr}
use reth_crawler.Sqlite.Steps.{ScanStepFails, SeenStepFails, IpStepFails, FoundAlone}
use reth_crawler.Sqlite.{
  Driver, table, key, schema, add_peer, all_peers, all_active_peers, node_by_id, node_by_ip,
  active_clients, from_row,
}
use reth_crawler.Sqlite.Rows.{reread, reread_same, stored}
use reth_crawler.PeerDb.Collection.{upsert}
use reth_crawler.Sqlite.Refines.{
  Holds, add_peer-Holds, all_peers-Holds, all_active_peers-Holds, node_by_ip-Holds,
}
use reth_crawler.Sqlite.ReadBack.{node_by_id-add_peer}
use reth_crawler.Tests.Items.{geth, geth-InRange}

pub data Value : Type 0 where
  txt : Text → Value
  int : ℕ → Value
  bit : Option Bool → Value

abbrev get_text : Value → Result (Unit {0}) Text
get_text (txt t) = ok t
get_text _ = err tt

abbrev get_int : Value → Result (Unit {0}) ℕ
get_int (int n) = ok n
get_int _ = err tt

abbrev get_bit : Value → Result (Unit {0}) (Option Bool)
get_bit (bit o) = ok o
get_bit _ = err tt

abbrev equal : Value → Value → Bool
equal (txt s) (txt t) = s == t
equal _ _ = false

abbrev less : Value → Value → Bool
less (txt s) (txt t) = text_ltb s t
less _ _ = false

abbrev pub values : Values
values = record {
  Value = Value;
  Error = Unit {0};
  text = txt;
  integer = int;
  optional_bool = bit;
  get_text = get_text;
  get_optional_bool = get_bit;
  null = bit none;
  equal = equal;
  less = less;
  get_text-text = λ t. refl;
  get_optional_bool-optional_bool = λ o. refl;
  equal-text = λ s t. refl;
}

abbrev pub Rows : Type 0
Rows = List (Row Value)

abbrev execute : Statement → List Value → Rows → Rows × Result (Unit {0}) (Unit {0})
execute (insert_or_replace t names vs) args rows =
    let row = assigned values names vs args in
    (row ∷ keep (λ other. not (equal (other "id") (row "id"))) rows, ok tt)
execute _ args rows = (rows, err tt)

abbrev query_map :
    Statement → List Value → Rows → Result (Unit {0}) (List (Result (Unit {0}) (List Value)))
query_map (select selection t condition) args rows =
    ok
      (map (λ row. ok (project schema selection row)) (keep (satisfies values condition args) rows))
query_map _ args rows = err tt

abbrev pub driver : Driver
driver = record {
  engine = record { values = values; Connection = Rows; execute = execute; query_map = query_map };
  get_u16 = get_int;
  get_u8 = get_int;
  invalid_column = tt;
  get_u16-integer = λ n h. refl;
  get_u8-integer = λ n h. refl;
  less-text = λ s t. refl;
}

pub perm_of_eq : {A : Type 0} {xs ys : List A} → xs ≡ ys → Perm xs ys
perm_of_eq {xs = xs} p = rw (← p) (Perm.refl xs)

pub rows_shown :
    (selection : Selection) (rows : Rows) (items : List (Result (Unit {0}) (List Value)))
    → map (λ row. ok (project schema selection row)) rows ≡ items
    → filter_map (λ item. to_option item) items ++ [] ≡ map (project schema selection) rows
unfolding filter_map
rows_shown selection [] items q = rw (← q) refl
rows_shown selection (row ∷ rows) items q =
    rw (← q) (ap (◌∷◌ (project schema selection row)) (rows_shown selection rows _ refl))

abbrev pub is_table : IsStepTable driver.engine table schema
is_table = record {
  rows = λ rows. rows;
  selects = λ selection condition args c items q. (
    [],
    λ complete. refl,
    perm_of_eq
        (rows_shown selection (keep (satisfies values condition args) c) items (ok-injective q)),
  );
}

abbrev pub replaces : Replaces driver.engine table key schema is_table
replaces = record { replaces = λ names vs args c c' q. perm_of_eq (sym (ap (λ x. x.0) q)) }

abbrev pub other : PeerData
other = record geth { id = text "0x99"; address = text "1.2.3.4"; last_seen = text "2022-01-01" }

abbrev pub before : Rows
before = stored driver other ∷ []

unfoldable pub program : Unit {0}
unfolding add_peer all_peers all_active_peers node_by_id node_by_ip active_clients from_row stored
    assigned satisfies project split join filter_map
program = tt

abbrev after : Rows
after = (add_peer driver {A = Unit {0}} {P = Unit {0}} geth before).0

-- The peers that the queries of `before` find.
abbrev found : List PeerData
found = reread other ∷ []

pub before-Holds : Holds driver is_table before (other ∷ [])
before-Holds = Perm.refl before

pub before_range : All InRange (other ∷ [])
before_range = (record { tcp_port = omega arith; eth_version = omega arith }, tt)

added : add_peer driver {A = Unit {0}} {P = Unit {0}} geth before ≡ (after, ok tt)
unfolding add_peer
added = refl

reread_same_example : reread geth ≡ geth
reread_same_example = reread_same geth (text "eth/67") (text "snap/1" ∷ []) refl (omega arith)

add_peer-Holds_example : Holds driver is_table after (upsert geth (other ∷ []))
add_peer-Holds_example =
    add_peer-Holds driver is_table replaces {A = Unit {0}} {P = Unit {0}} geth before after
      (other ∷ []) before-Holds added

all_peers-Holds_example :
    FailsOr sql_scan_error
      (all_peers driver {A = Unit {0}} {P = Unit {0}} none before)
      (λ out. AllOr (ScanStepFails driver before) out (map reread (other ∷ [])))
all_peers-Holds_example =
    all_peers-Holds driver is_table {A = Unit {0}} {P = Unit {0}} before (other ∷ []) before-Holds
      before_range none

all_active_peers-Holds_example :
    FailsOr sql_scan_error
      (all_active_peers driver {A = Unit {0}} {P = Unit {0}} (text "2021") none before)
      (λ out.
        AllOr
          (SeenStepFails driver (text "2021") before)
          out
          (map reread (keep (λ p. text_ltb (text "2021") p.last_seen) (other ∷ []))))
all_active_peers-Holds_example =
    all_active_peers-Holds driver is_table {A = Unit {0}} {P = Unit {0}} before (other ∷ [])
      before-Holds before_range (text "2021") none

node_by_ip-Holds_example :
    FailsOr sql_query_item_error
      (node_by_ip driver {A = Unit {0}} {P = Unit {0}} (text "1.2.3.4") before)
      (λ out.
        (l : List PeerData) × (out ≡ some l)
        × AllOr
            (IpStepFails driver (text "1.2.3.4") before)
            l
            (map reread (keep (λ p. p.address == text "1.2.3.4") (other ∷ []))))
node_by_ip-Holds_example =
    node_by_ip-Holds driver is_table {A = Unit {0}} {P = Unit {0}} before (other ∷ []) before-Holds
      before_range (text "1.2.3.4")

node_by_id-add_peer_example :
    FailsOr sql_query_item_error
      (node_by_id driver {A = Unit {0}} {P = Unit {0}} geth.id after)
      (FoundAlone driver geth.id (reread geth) after)
node_by_id-add_peer_example =
    node_by_id-add_peer driver is_table replaces {A = Unit {0}} {P = Unit {0}} geth before after
      (other ∷ []) before-Holds (geth-InRange, before_range) added

-- The queries of this database do not fail.
queries_answer :
    (node_by_id driver {A = Unit {0}} {P = Unit {0}} geth.id after ≡ ok (some (reread geth ∷ [])))
    × (all_peers driver {A = Unit {0}} {P = Unit {0}} none before ≡ ok found)
unfolding program
queries_answer = (refl, refl)

-- The same database, where the first step through the rows of any query fails.
abbrev interrupted : Driver
interrupted = record driver {
  engine = record {
    values = values;
    Connection = Rows;
    execute = execute;
    query_map = λ statement args rows. ok (err tt ∷ []);
  };
}

one_error :
    (items : List (Result (Unit {0}) (List Value)))
    → err tt ∷ [] ≡ items
    → (filter_map (λ item. to_option item) items ≡ []) × (all_rows items ≡ false)
unfolding filter_map
one_error items q = rw (← q) (refl, refl)

is_interrupted_table : IsStepTable interrupted.engine table schema
is_interrupted_table = record {
  rows = λ rows. rows;
  selects = λ selection condition args c items q.
      let (none_shown, fails) = one_error items (ok-injective q) in
      let all = map (project schema selection) (keep (satisfies values condition args) c) in
      (
        all,
        λ complete. absurd (false≢true (sym fails ∙ complete)),
        perm_of_eq (ap (λ l. l ++ all) none_shown),
      );
}

-- Its answer is not an error, and lists nothing.
interrupted_answers : all_peers interrupted {A = Unit {0}} {P = Unit {0}} none before ≡ ok []
unfolding program
interrupted_answers = refl

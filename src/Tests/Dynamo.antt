-- ===== src/Tests/Dynamo.antt =====
-- DynamoDB over a list of items, and peers through it.
use mathlib.Core.List.{Perm, append-nil}
use mathlib.Core.List.Perm
use reth_crawler.Prelude.{
  FailsOr, ◌⊎◌, ◌≡◌, refl, sym, ap, fun_ext, ◌∙◌, Bool, true, false, not, String, string_eq, Option,
  none, some, List, [], ◌∷◌, map, keep, Result, ok, err, ok-injective, ◌==◌, list_eq, nat_eq, arith,
  All, lookup,
}
use reth_crawler.Text.{text, text_ltb}
use reth_crawler.Types.{PeerData, aws_scan_error, aws_query_item_error}
use reth_crawler.Types.Item.{from_item}
use reth_crawler.Types.Attributes.{as_string, as_u16, as_u8, as_string_vec, as_option_bool}
use reth_crawler.Text.Decimal.{parse, to_string}
use reth_crawler.Aws.{put_item, synced_attribute}
use reth_crawler.Aws.Dynamo.{Dynamo, Filter, passes, IsDynamoTable}
use reth_crawler.Aws.Methods.{
  add_peer, scan_all, all_peers, all_active_peers, query_nodes, node_by_id, node_by_ip,
}
use reth_crawler.Aws.Refines.{Stored, Fits, read_back, all_peers-Stores, all_active_peers-Stores}
use reth_crawler.Aws.Queries.{node_by_ip-Stores, SomeOf}
use reth_crawler.Tests.Items.{Value, s, values, geth}
use reth_crawler.Tests.Tables.{perm_of_eq}

abbrev Item : Type 0
Item = List (String × Value)

abbrev equal : Value → Value → Bool
equal (s a) (s b) = a == b
equal _ _ = false

abbrev less : Value → Value → Bool
less (s a) (s b) = text_ltb a b
less _ _ = false

abbrev named : String → (Value → Bool) → Item → Bool
named name test item = elim (lookup name item) [ none ↦ false | some v ↦ test v ]

abbrev filtered : Filter Value → Item → Bool
filtered Filter.unfiltered item = true
filtered (Filter.greater name v) item = named name (less v) item

abbrev put : Item → List Item → List Item × Result (Unit {0}) (Unit {0})
put item items = elim (lookup "peer-id" item) [
  | none ↦ (items, err tt)
  | some v ↦ (item ∷ keep (λ other. not (named "peer-id" (λ w. equal w v) other)) items, ok tt)
]

abbrev dynamo : Dynamo
dynamo = record {
  attributes = values;
  Table = List Item;
  Error = Unit {0};
  region = text "us-west-2";
  put = put;
  scan = λ filter page_size items. ok (keep (filtered filter) items);
  query = λ index name v items. ok (some (keep (named name (λ w. equal w v)) items));
  equal = equal;
  less = less;
  Settled = λ items. Unit {0};
  equal-s = λ a b. refl;
  less-s = λ a b. refl;
}

put-some :
    (item : Item) (v : Value) (items items' : List Item)
    → lookup "peer-id" item ≡ some v
    → put item items ≡ (items', ok tt)
    → items' ≡ item ∷ keep (λ other. not (named "peer-id" (λ w. equal w v) other)) items
put-some item v items items' found q =
    let ran : put item items
        ≡ (item ∷ keep (λ other. not (named "peer-id" (λ w. equal w v) other)) items, ok tt) =
      rw (found, put) refl in
    ap (λ x. x.0) (sym q ∙ ran)

some-injective : {A : Type 0} {a b : A} → ◌≡◌ {A = Option A} (some a) (some b) → a ≡ b
some-injective p = cc

filtered-passes :
    (filter : Filter Value) (item : Item) → filtered filter item ≡ passes dynamo filter item
filtered-passes Filter.unfiltered item = refl
filtered-passes (Filter.greater name v) item = refl

abbrev is_dynamo_table : IsDynamoTable dynamo "peer-id"
is_dynamo_table = record {
  items = λ items. items;
  puts = λ item v t t' found q. perm_of_eq (put-some item v t t' found q);
  scans = λ filter page_size t found settled q.
      perm_of_eq (sym (ok-injective q) ∙ ap (λ f. keep f t) (fun_ext (filtered-passes filter)));
  queries = λ index name v t found settled q.
      ([], perm_of_eq (append-nil found ∙ sym (some-injective (ok-injective q))));
}

program : Unit {0}
unfolding add_peer all_peers all_active_peers node_by_id node_by_ip scan_all query_nodes put_item
    from_item lookup as_string as_u16 as_u8 as_string_vec as_option_bool parse synced_attribute
    to_string
program = tt

abbrev old_geth : Stored
old_geth = (text "eu-west-1", record geth { city = text "Bonn" })

abbrev other : Stored
other = (text "us-west-2", record geth { id = text "0x99"; last_seen = text "2022-01-01" })

abbrev peers : List Stored
peers = other ∷ old_geth ∷ []

abbrev table : List Item
table = map (λ x. put_item values x.0 x.1) peers

peers_fit : All Fits peers
peers_fit = (
  record { tcp_port = omega arith; eth_version = omega arith },
  (record { tcp_port = omega arith; eth_version = omega arith }, tt),
)

abbrev after : List Item
after = (add_peer dynamo {S = Unit {0}} {P = Unit {0}} geth table).0

all_peers-Stores_example :
    FailsOr aws_scan_error
      (all_peers dynamo {S = Unit {0}} {P = Unit {0}} none table)
      (λ out. Perm out (map read_back peers))
all_peers-Stores_example =
    all_peers-Stores dynamo is_dynamo_table {S = Unit {0}} {P = Unit {0}} table peers tt
      (Perm.refl table) peers_fit none

all_active_peers-Stores_example :
    FailsOr aws_scan_error
      (all_active_peers dynamo {S = Unit {0}} {P = Unit {0}} (text "2023") (some 50) table)
      (λ out. Perm out (map read_back (keep (λ x. text_ltb (text "2023") x.1.last_seen) peers)))
all_active_peers-Stores_example =
    all_active_peers-Stores dynamo is_dynamo_table {S = Unit {0}} {P = Unit {0}} table peers tt
      (Perm.refl table) peers_fit (some 50) (text "2023")

node_by_ip-Stores_example :
    FailsOr aws_query_item_error
      (node_by_ip dynamo {S = Unit {0}} {P = Unit {0}} (text "158.220.96.114") table)
      (λ out.
        (out ≡ none)
        ⊎ ((found : List PeerData) × (out ≡ some found)
            × SomeOf dynamo is_dynamo_table found
                (map read_back (keep (λ x. x.1.address == text "158.220.96.114") peers))))
node_by_ip-Stores_example =
    node_by_ip-Stores dynamo is_dynamo_table {S = Unit {0}} {P = Unit {0}} table peers tt
      (Perm.refl table) peers_fit (text "158.220.96.114")

-- This table does not fail.
table_answers :
    (all_peers dynamo {S = Unit {0}} {P = Unit {0}} none table ≡ ok (map read_back peers))
    × (all_active_peers dynamo {S = Unit {0}} {P = Unit {0}} (text "2023") (some 50) table
        ≡ ok (read_back old_geth ∷ []))
    × (node_by_ip dynamo {S = Unit {0}} {P = Unit {0}} (text "158.220.96.114") table
        ≡ ok (some (map read_back peers)))
unfolding program
table_answers = (refl, refl, refl)

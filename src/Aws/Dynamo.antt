-- ===== src/Aws/Dynamo.antt =====
-- The client of DynamoDB as the program calls it, and what is documented of a table.
use mathlib.Core.List.{Perm}
use reth_crawler.Prelude.{
  ℕ, ◌≡◌, String, Bool, true, false, not, ◌==◌, list_eq, nat_eq, string_eq, Option, none, some,
  List, ◌∷◌, ◌++◌, Result, ok, keep, lookup,
}
use reth_crawler.Text.{Text, text_ltb}
use reth_crawler.Types.Attributes.{Attributes}

-- `attribute > value`, or no filter
pub data Filter (V : Type 0) : Type 0 where
  unfiltered : Filter V
  greater : String → V → Filter V

-- A scan is given its filter and the size of its pages, and yields the items of all pages. A query
-- is given an index, if any, the key attribute and its value; it yields one page, if any. `region`
-- is that of the configuration, which always has one.
pub record Dynamo : Type 1 where
  pub attributes : Attributes
  pub open attributes use *
  pub Table : Type 0
  pub Error : Type 0
  pub region : Text
  pub put : List (String × Value) → Table → Table × Result Error (Unit {0})
  pub scan : Filter Value → ℕ → Table → Result Error (List (List (String × Value)))
  pub query :
      Option String → String → Value → Table → Result Error (Option (List (List (String × Value))))
  pub equal : Value → Value → Bool
  pub less : Value → Value → Bool
  -- all replicas and indexes hold all that was put
  pub Settled : Table → Type 0
  pub equal-s : (a b : Text) → equal (s a) (s b) ≡ (a == b)
  pub less-s : (a b : Text) → less (s a) (s b) ≡ text_ltb a b

module _ (D : Dynamo) where
  open D use {Value, Table, put, scan, query, equal, less}

  -- whether an item has an attribute that passes a test
  abbrev pub has : String → (Value → Bool) → List (String × Value) → Bool
  has name test item = elim (lookup name item) [ none ↦ false | some v ↦ test v ]

  abbrev pub passes : Filter Value → List (String × Value) → Bool
  passes unfiltered item = true
  passes (greater name v) item = has name (less v) item

  -- The items, in no particular order; `key` is the attribute that identifies them, the partition key
  -- of a table without a sort key. Scans and queries are eventually consistent: when the table
  -- is settled, a scan visits every item, page by page, and a query gives items
  -- of the table, but may leave out what does not fit its page. Both may always fail.
  pub record IsDynamoTable (key : String) : Type 0 where
    pub items : Table → List (List (String × Value))
    pub puts :
        (item : List (String × Value)) (v : Value) (t t' : Table)
        → lookup key item ≡ some v
        → put item t ≡ (t', ok tt)
        → Perm (items t') (item ∷ keep (λ other. not (has key (λ w. equal w v) other)) (items t))
    pub scans :
        (filter : Filter Value) (page_size : ℕ) (t : Table) (found : List (List (String × Value)))
        → D.Settled t
        → scan filter page_size t ≡ ok found
        → Perm found (keep (passes filter) (items t))
    pub queries :
        (index : Option String) (name : String) (v : Value) (t : Table)
        (found : List (List (String × Value)))
        → D.Settled t
        → query index name v t ≡ ok (some found)
        → (rest : List (List (String × Value))) × Perm
            (found ++ rest)
            (keep (has name (λ w. equal w v)) (items t))

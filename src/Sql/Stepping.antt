-- ===== src/Sql/Stepping.antt =====
-- The client of SQLite, which takes the rows of an answer one by one.
use mathlib.Core.List.{Perm, filter_map}
use reth_crawler.Prelude.{
  ◌≡◌, String, Bool, true, false, not, List, [], ◌∷◌, ◌++◌, map, Result, ok, err, keep, to_option,
}
use reth_crawler.Sql.{
  Row, Values, Statement, Selection, Condition, Placeholder, select, insert_or_replace, assigned,
  satisfies, project,
}

-- `query_map` gives an iterator: an item is a row, or the error of the step to it.
pub record StepEngine : Type 1 where
  pub values : Values
  pub open values use *
  pub Connection : Type 0
  pub execute : Statement → List Value → Connection → Connection × Result Error (Unit {0})
  pub query_map :
      Statement → List Value → Connection → Result Error (List (Result Error (List Value)))

-- Whether every step gave a row.
abbrev pub all_rows {ℓ κ} : {E : Type ℓ} {A : Type κ} → List (Result E A) → Bool
all_rows [] = true
all_rows (ok row ∷ items) = all_rows items
all_rows (err e ∷ items) = false

module _ (E : StepEngine) where
  open E use {Value, Connection, execute, query_map, equal}

  -- What is documented of a table: `schema` is the order of its columns and `rows` its contents, in
  -- no particular order. A statement may always fail, and so may a step, with which rows are missed.
  pub record IsStepTable (table : String) (schema : List String) : Type 0 where
    pub rows : Connection → List (Row Value)
    pub selects :
        (selection : Selection) (condition : Condition) (args : List Value) (c : Connection)
        (items : List (Result E.Error (List Value)))
        → query_map (select selection table condition) args c ≡ ok items
        → (missed : List (List Value)) × (all_rows items ≡ true → missed ≡ [])
          × Perm
              (filter_map (λ item. to_option item) items ++ missed)
              (map (project schema selection) (keep (satisfies E.values condition args) (rows c)))

  -- What is documented of `INSERT OR REPLACE` on a table with the primary key `key`.
  pub record Replaces (table key : String) (schema : List String) (t : IsStepTable table schema)
      : Type 0 where
    pub replaces :
        (names : List String) (values : List Placeholder) (args : List Value) (c c' : Connection)
        → execute (insert_or_replace table names values) args c ≡ (c', ok tt)
        → Perm (t.rows c') (
            assigned E.values names values args
            ∷ keep
                (λ row. not (equal (row key) (assigned E.values names values args key)))
                (t.rows c))

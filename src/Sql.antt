-- ===== src/Sql.antt =====
-- The SQL of db/src/db.rs as data, and the database clients that run it as interfaces with what
-- their documentation promises. The texts of the statements become values of `Statement`.
pub mod Bags
pub mod Conflict
pub mod Collect
pub mod Stepping
pub mod Partial
use reth_crawler.Prelude.{
  ℕ, zero, suc, ◌^◌, ◌<◌, ◌≡◌, String, Bool, true, not, Option, none, some, List, [], ◌∷◌, map,
  Result, ok, err, ◌==◌, string_eq, list_eq, nat_eq, lookup, keep, if◌then◌else◌,
}
use mathlib.Core.Option.{get_or}
use mathlib.Core.List.{Perm, zip}
use reth_crawler.Text.{Text}

-- `?n` and `$n`
pub data Placeholder : Type 0 where
  question dollar : ℕ → Placeholder

pub data Condition : Type 0 where
  always : Condition
  equals : String → Placeholder → Condition
  greater : String → Placeholder → Condition

-- `*`, or the named columns
pub data Selection : Type 0 where
  star : Selection
  columns : List String → Selection

-- `INSERT OR REPLACE INTO t (..) VALUES (..)`, the same with `ON CONFLICT (k) DO UPDATE SET c =
-- EXCLUDED.c`, and `SELECT s FROM t WHERE c`
pub data Statement : Type 0 where
  insert_or_replace : String → List String → List Placeholder → Statement
  insert_on_conflict : String → List String → List Placeholder → String → List String → Statement
  select : Selection → String → Condition → Statement

-- A row gives each column a value.
abbrev pub Row : Type 0 → Type 0
Row V = String → V

-- The values that a database client exchanges.
pub record Values : Type 1 where
  pub Value : Type 0
  pub Error : Type 0
  -- how parameters of the types that the program passes become values
  pub text : Text → Value
  pub integer : ℕ → Value
  pub optional_bool : Option Bool → Value
  -- how columns are read as those types
  pub get_text : Value → Result Error Text
  pub get_optional_bool : Value → Result Error (Option Bool)
  -- the value of a column that a statement leaves out, and the tests of a condition
  pub null : Value
  pub equal : Value → Value → Bool
  pub less : Value → Value → Bool
  -- what a text or an optional Boolean is read back as
  pub get_text-text : (t : Text) → get_text (text t) ≡ ok t
  pub get_optional_bool-optional_bool :
      (o : Option Bool) → get_optional_bool (optional_bool o) ≡ ok o
  pub equal-text : (s t : Text) → equal (text s) (text t) ≡ (s == t)

-- A database client: how it runs statements. One that reads leaves the database alone.
pub record Engine : Type 1 where
  pub values : Values
  pub open values use *
  pub Connection : Type 0
  pub execute : Statement → List Value → Connection → Connection × Result Error (Unit {0})
  pub query : Statement → List Value → Connection → Result Error (List (List Value))

-- The numbers of the placeholders count from one.
abbrev pub nth_or {ℓ} : {V : Type ℓ} → V → ℕ → List V → V
nth_or d n [] = d
nth_or d zero (v ∷ vs) = v
nth_or d (suc n) (v ∷ vs) = nth_or d n vs

abbrev pub argument {ℓ} : {V : Type ℓ} → V → Placeholder → List V → V
argument d (question zero) vs = d
argument d (question (suc n)) vs = nth_or d n vs
argument d (dollar zero) vs = d
argument d (dollar (suc n)) vs = nth_or d n vs

-- the values of a row that a selection shows
unfoldable pub project : {V : Type 0} → List String → Selection → Row V → List V
project schema star row = map row schema
project schema (columns names) row = map row names

module _ (W : Values) where
  open W use {Value, null, equal, less}

  -- the row that `(names) VALUES (values)` stands for
  unfoldable pub assigned : List String → List Placeholder → List Value → Row Value
  assigned names values args column =
      get_or (lookup column (zip names (map (λ p. argument null p args) values))) null

  unfoldable pub satisfies : Condition → List Value → Row Value → Bool
  satisfies always args row = true
  satisfies (equals column p) args row = equal (row column) (argument null p args)
  satisfies (greater column p) args row = less (argument null p args) (row column)

module _ (E : Engine) where
  open E use {Value, Connection, execute, query, equal}

  -- What is documented of a table: `schema` is the order of its columns and `rows` its contents, in
  -- no particular order. A statement may always fail.
  pub record IsTable (table : String) (schema : List String) : Type 0 where
    pub rows : Connection → List (Row Value)
    pub selects :
        (selection : Selection) (condition : Condition) (args : List Value) (c : Connection)
        (found : List (List Value))
        → query (select selection table condition) args c ≡ ok found
        → Perm found
            (map (project schema selection) (keep (satisfies E.values condition args) (rows c)))

-- ===== src/Sqlite/Selecting.antt =====
-- The peers that a query of `SqlPeerDB` selects, and those that a failing step leaves out.
use mathlib.Core.List.{Perm, filter_map, filter_map-append, map-map}
use mathlib.Core.List.Perm
use mathlib.Core.Path.{subst}
use reth_crawler.Prelude.{
  ◌≡◌, refl, sym, ap, fun_ext, ◌∙◌, inl, inr, Bool, List, [], ◌∷◌, map, Result, ok, err, ◌++◌,
  ◌>>=◌, ok_of_map_ok, Bool-cases, Result-cases, All, All-keep, keep, list_eq, nat_eq, map_err,
  FailsOr, to_option,
}
use reth_crawler.Types.{PeerData, InRange}
use reth_crawler.Sql.{Condition, star, satisfies, project}
use reth_crawler.Sql.Stepping.{IsStepTable, all_rows}
use reth_crawler.Sqlite.Steps.{StepFails}
use reth_crawler.Sql.Partial.{AllOr, nil_rest}
use reth_crawler.Sql.Bags.{keep-Perm, keep-map}
use reth_crawler.Sqlite.{Driver, table, schema, from_row, flatten, peers}
use reth_crawler.Sqlite.Rows.{reread, stored, from_row-stored}

module _ (D : Driver) (t : IsStepTable D.engine table schema) where
  open D use {engine, Value, Connection, Error, text}

  flatten-items :
      (items : List (Result Error (List Value)))
      → flatten D (map (λ item. item >>= from_row D) items)
        ≡ filter_map (λ row. to_option (from_row D row)) (filter_map (λ item. to_option item) items)
  unfolding flatten filter_map
  flatten-items [] = refl
  flatten-items (err e ∷ items) = flatten-items items
  flatten-items (ok row ∷ items) = elim (Result-cases (from_row D row)) [
    | inl (p, reads) ↦ rw reads (ap (◌∷◌ p) (flatten-items items))
    | inr (e, fails) ↦ rw fails (flatten-items items)
  ]

  filter_map-stored :
      (ps : List PeerData)
      → All InRange ps
      → filter_map
          (λ row. to_option (from_row D row))
          (map (λ p. project schema star (stored D p)) ps)
        ≡ map reread ps
  unfolding filter_map
  filter_map-stored [] h = refl
  filter_map-stored (p ∷ ps) h =
      rw (from_row-stored D p h.0) (ap (◌∷◌ (reread p)) (filter_map-stored ps h.1))

  -- A query returns the peers whose rows pass its condition.
  peers-Holds :
      (condition : Condition) (args : List Value) (c : Connection) (ps out : List PeerData)
      → Perm (t.rows c) (map (stored D) ps)
      → All InRange ps
      → peers D condition args c ≡ ok out
      → AllOr
          (StepFails D condition args c)
          out
          (map reread (keep (λ p. satisfies engine.values condition args (stored D p)) ps))
  unfolding peers
  peers-Holds condition args c ps out h range q =
      let (items, got, shown) = ok_of_map_ok _ _ q in
      let (missed, whole, found) = t.selects star condition args c items got in
      let sat = satisfies engine.values condition args in
      let show = project schema star in
      let qs = keep (λ p. sat (stored D p)) ps in
      let named : map show (keep sat (map (stored D) ps)) ≡ map (λ p. show (stored D p)) qs =
        ap (map show) (keep-map sat (stored D) ps) ∙ map-map show (stored D) qs in
      let reading = λ (row : List Value). to_option (from_row D row) in
      let rows = filter_map (λ item. to_option item) items in
      let selected =
        subst (Perm (rows ++ missed)) named (Perm.trans found (Perm.map show (keep-Perm sat h))) in
      let known =
        subst (Perm (filter_map reading (rows ++ missed)))
          (filter_map-stored qs (All-keep InRange (λ p. sat (stored D p)) ps range))
          (Perm.filter_map reading selected) in
      let here = sym (flatten-items items) ∙ shown in
      let parts : filter_map reading (rows ++ missed) ≡ out ++ filter_map reading missed =
        filter_map-append reading rows missed ∙ ap (λ l. l ++ filter_map reading missed) here in
      let all = subst (λ l. Perm l (map reread qs)) parts known in
      elim (Bool-cases (all_rows items)) [
        | inl complete ↦
            let nothing : out ++ filter_map reading missed ≡ out =
              ap (λ l. out ++ filter_map reading l) (whole complete) ∙ nil_rest reading out in
            inl (subst (λ l. Perm l (map reread qs)) nothing all)
        | inr failed ↦ inr ((items, got, failed), (filter_map reading missed, all))
      ]

  -- The collection that the queries select from, with the test that a condition makes of a peer.
  selected :
      (condition : Condition) (args : List Value) (test : PeerData → Bool) (c : Connection)
      (ps out : List PeerData)
      → ((p : PeerData) → satisfies engine.values condition args (stored D p) ≡ test p)
      → Perm (t.rows c) (map (stored D) ps)
      → All InRange ps
      → peers D condition args c ≡ ok out
      → AllOr (StepFails D condition args c) out (map reread (keep test ps))
  selected condition args test c ps out same h range q =
      rw (← fun_ext same) (peers-Holds condition args c ps out h range q)

  -- The query fails with an error of the database, or finds those peers.
  pub answered :
      {F : Type 0} (error : Error → F) (condition : Condition) (args : List Value)
      (test : PeerData → Bool) (c : Connection) (ps : List PeerData)
      → ((p : PeerData) → satisfies engine.values condition args (stored D p) ≡ test p)
      → Perm (t.rows c) (map (stored D) ps)
      → All InRange ps
      → FailsOr error
          (map_err error (peers D condition args c))
          (λ out. AllOr (StepFails D condition args c) out (map reread (keep test ps)))
  answered error condition args test c ps same h range =
      elim (Result-cases (peers D condition args c)) [
        | inr (e, failed) ↦ inl (e, ap (map_err error) failed)
        | inl (out, got) ↦
            inr
              (out, ap (map_err error) got, selected condition args test c ps out same h range got)
      ]

-- ===== src/Sql/Conflict.antt =====
-- `INSERT .. ON CONFLICT (key) DO UPDATE SET ..`: what PostgreSQL documents of it.
use mathlib.Core.List.{Perm, cons≢nil}
use mathlib.Core.List.Perm
use mathlib.Core.Path.{subst}
use mathlib.Core.Bool.{false≢true}
use reth_crawler.Sql.Bags.{keep-Perm}
use reth_crawler.Prelude.{
  ◌≡◌, refl, sym, inl, inr, String, Bool, true, false, List, [], ◌∷◌, map, ok, any, keep, arith,
  ◌∙◌, ◌==◌, string_eq, if◌then◌else◌, Bool-cases,
}
use reth_crawler.Sql.{Row, Placeholder, Engine, IsTable, insert_on_conflict, assigned}

-- Every element that passes is changed; if there is none, one is added.
unfoldable pub change_or_add {ℓ} : {A : Type ℓ} → (A → Bool) → (A → A) → A → List A → List A
change_or_add test f new xs =
    if any test xs then map (λ x. if test x then f x else x) xs else new ∷ xs

-- `SET c = EXCLUDED.c` for the columns `sets`
unfoldable pub updated : {V : Type 0} → List String → Row V → Row V → Row V
updated sets new old column = if any (λ c. c == column) sets then new column else old column

module _ (E : Engine) where
  open E use {Value, Connection, execute, equal}

  pub record Upserts (table key : String) (schema : List String) (t : IsTable E table schema)
      : Type 0 where
    pub upserts :
        (names : List String) (values : List Placeholder) (sets : List String) (args : List Value)
        (c c' : Connection)
        → execute (insert_on_conflict table names values key sets) args c ≡ (c', ok tt)
        → let new = assigned E.values names values args in
          Perm
            (t.rows c')
            (change_or_add (λ row. equal (row key) (new key)) (updated sets new) new (t.rows c))

module _ {ℓ} {A : Type ℓ} (test : A → Bool) where
  keep_of_any-false : (xs : List A) → any test xs ≡ false → keep test xs ≡ []
  keep_of_any-false [] h = refl
  keep_of_any-false (x ∷ xs) h = ground (arith, keep_of_any-false xs)

  any-false_of_keep : (xs : List A) → keep test xs ≡ [] → any test xs ≡ false
  any-false_of_keep [] h = refl
  any-false_of_keep (x ∷ xs) h = elim (Bool-cases (test x)) [
    | inl passes ↦
        let kept : keep test (x ∷ xs) ≡ x ∷ keep test xs = rw passes refl in
        absurd (cons≢nil (sym kept ∙ h))
    | inr drops ↦
        let kept : keep test (x ∷ xs) ≡ keep test xs = rw drops refl in
        rw drops (any-false_of_keep xs (sym kept ∙ h))
  ]

  any-false-Perm : {xs ys : List A} → Perm xs ys → any test ys ≡ false → any test xs ≡ false
  any-false-Perm {xs} {ys} same h =
      any-false_of_keep xs
        (Perm.eq-nil (subst (Perm (keep test xs)) (keep_of_any-false ys h) (keep-Perm test same)))

  pub change_or_add-Perm :
      (f : A → A) (new : A) {xs ys : List A}
      → Perm xs ys
      → Perm (change_or_add test f new xs) (change_or_add test f new ys)
  unfolding change_or_add
  change_or_add-Perm f new {xs} {ys} same = elim (Bool-cases (any test xs)) [
    | inr away ↦
        rw (away, any-false-Perm {xs = ys} {ys = xs} (Perm.symm same) away) (Perm.cons new same)
    | inl here ↦ elim (Bool-cases (any test ys)) [
      | inl there ↦ rw (here, there) (Perm.map (λ x. if test x then f x else x) same)
      | inr away ↦ absurd (false≢true (sym (any-false-Perm {xs = xs} {ys = ys} same away) ∙ here))
    ]
  ]

module _ {ℓ κ} {A : Type ℓ} {B : Type κ} (g : A → B) (test : B → Bool) (f : B → B)
    (testA : A → Bool) (fA : A → A) (same : (a : A) → test (g a) ≡ testA a)
    (change : (a : A) → testA a ≡ true → f (g a) ≡ g (fA a)) where
  any-map : (xs : List A) → any test (map g xs) ≡ any testA xs
  any-map [] = refl
  any-map (x ∷ xs) = rw (same x, any-map xs) refl

  change-map :
      (xs : List A)
      → map (λ y. if test y then f y else y) (map g xs)
        ≡ map g (map (λ x. if testA x then fA x else x) xs)
  change-map [] = refl
  change-map (x ∷ xs) = elim (Bool-cases (testA x)) [
    | inl here ↦ rw (same x, here, change x here, change-map xs) refl
    | inr away ↦ rw (same x, away, change-map xs) refl
  ]

  pub change_or_add-map :
      (new : A) (xs : List A)
      → change_or_add test f (g new) (map g xs) ≡ map g (change_or_add testA fA new xs)
  unfolding change_or_add
  change_or_add-map new xs = elim (Bool-cases (any testA xs)) [
    | inl here ↦ rw (any-map xs, here) (change-map xs)
    | inr away ↦ rw (any-map xs, away) refl
  ]

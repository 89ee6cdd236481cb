-- ===== src/Tasks.antt =====
-- How the tasks of the two programs stand, and the macros that wait for several at once.
use reth_crawler.Prelude.{◌≡◌, Bool, true, false, ◌||◌, List, map, Result, err, any}

-- How a task stands: it runs, it has returned, or it has panicked.
pub data Future {ℓ} (A : Type ℓ) : Type ℓ where
  running panicked : Future A
  returned : A → Future A

-- A task that returns no value, or an error.
abbrev pub Task {ℓ} : Type ℓ → Type ℓ
Task E = Future (Result E (Unit {0}))

abbrev pub is_running {ℓ} : {A : Type ℓ} → Future A → Bool
is_running running = true
is_running _ = false

abbrev pub is_panicked {ℓ} : {A : Type ℓ} → Future A → Bool
is_panicked panicked = true
is_panicked _ = false

-- `join_all` of futures, for a list, and `join!` of tokio, for four: they wait for every future and give
-- all results; a panic of one is a panic of all.
pub record Join : Type 1 where
  pub join_all : {A : Type 0} → List (Future A) → Future (List A)
  pub all_panic :
      {A : Type 0} (fs : List (Future A)) → any is_panicked fs ≡ true → join_all fs ≡ panicked
  pub all_wait :
      {A : Type 0} (fs : List (Future A))
      → any is_panicked fs ≡ false
      → any is_running fs ≡ true
      → join_all fs ≡ running
  pub all_return :
      {A : Type 0} (results : List A) → join_all (map returned results) ≡ returned results
  pub join : {A B C D : Type 0} → Future A → Future B → Future C → Future D → Future (A × B × C × D)
  pub panics :
      {A B C D : Type 0} (a : Future A) (b : Future B) (c : Future C) (d : Future D)
      → (is_panicked a || is_panicked b || is_panicked c || is_panicked d) ≡ true
      → join a b c d ≡ panicked
  pub waits :
      {A B C D : Type 0} (a : Future A) (b : Future B) (c : Future C) (d : Future D)
      → (is_panicked a || is_panicked b || is_panicked c || is_panicked d) ≡ false
      → (is_running a || is_running b || is_running c || is_running d) ≡ true
      → join a b c d ≡ running
  pub returns :
      {A B C D : Type 0} (a : A) (b : B) (c : C) (d : D)
      → join (returned a) (returned b) (returned c) (returned d) ≡ returned (a, b, c, d)

-- `try_join!` of tokio beside a task that runs: it waits for the other task, and returns its error.
pub record TryJoin {ℓ} (E : Type ℓ) : Type ℓ where
  pub try_join : Task E → Task E → Task E
  pub waits : try_join running running ≡ running
  pub fails : (e : E) → try_join running (returned (err e)) ≡ returned (err e)
  pub panics : try_join running panicked ≡ panicked

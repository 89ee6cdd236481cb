-- ===== src/Prelude/Outcomes.antt =====
-- Rust's `Result`, and code that may panic.
use mathlib.Core.Path.{◌≡◌, refl, sym, ap, ◌∙◌, subst}
use mathlib.Core.Logic.{◌⊎◌, inl, inr}
use mathlib.Core.Option.{Option, none, some}

pub data Result {ℓ κ} (E : Type ℓ) (A : Type κ) : Type (ℓ ⊔ κ) where
  ok : A → Result E A
  err : E → Result E A

pub Result-cases {ℓ κ} :
    {E : Type ℓ} {A : Type κ} (r : Result E A) → ((a : A) × (r ≡ ok a)) ⊎ ((e : E) × (r ≡ err e))
Result-cases (ok a) = inl (a, refl)
Result-cases (err e) = inr (e, refl)

-- `r.ok()`
abbrev pub to_option {ℓ κ} : {E : Type ℓ} {A : Type κ} → Result E A → Option A
to_option (ok a) = some a
to_option (err e) = none

abbrev pub map_err {ℓ κ ι} :
    {E : Type ℓ} {F : Type κ} {A : Type ι} → (E → F) → Result E A → Result F A
map_err f (ok a) = ok a
map_err f (err e) = err (f e)

abbrev pub map_ok {ℓ κ ι} :
    {E : Type ℓ} {A : Type κ} {B : Type ι} → (A → B) → Result E A → Result E B
map_ok f (ok a) = ok (f a)
map_ok f (err e) = err e

pub ok-ne-err {ℓ κ} :
    {E : Type ℓ} {A : Type κ} {a : A} {e : E} → ¬ (◌≡◌ {A = Result E A} (ok a) (err e))
ok-ne-err p = cc

pub ok-injective {ℓ κ} :
    {E : Type ℓ} {A : Type κ} {a b : A} → ◌≡◌ {A = Result E A} (ok a) (ok b) → a ≡ b
ok-injective p = cc

pub ok_of_map_err {ℓ κ ι} :
    {E : Type ℓ} {F : Type κ} {A : Type ι} (f : E → F) (r : Result E A) {a : A}
    → map_err f r ≡ ok a
    → r ≡ ok a
ok_of_map_err f (ok b) h = cc
ok_of_map_err f (err e) h = cc

pub ok_of_map_ok {ℓ κ ι} :
    {E : Type ℓ} {A : Type κ} {B : Type ι} (f : A → B) (r : Result E A) {b : B}
    → map_ok f r ≡ ok b
    → (a : A) × (r ≡ ok a) × (f a ≡ b)
ok_of_map_ok f (ok a) h = (a, refl, ok-injective h)
ok_of_map_ok f (err e) h = absurd (ok-ne-err (sym h))

-- A call fails with an error of the client below it, or returns a value of which something holds.
abbrev pub FailsOr {ℓ κ ι ν} :
    {E : Type ℓ} {F : Type κ} {A : Type ι}
    → (E → F)
    → Result F A
    → (A → Type ν)
    → Type (ℓ ⊔ κ ⊔ ι ⊔ ν)
FailsOr {E} {A = A} error r P = ((e : E) × (r ≡ err (error e))) ⊎ ((a : A) × (r ≡ ok a) × P a)

pub FailsOr_of_ok {ℓ κ ι ν μ} :
    {E : Type ℓ} {F : Type κ} {A : Type ι} {B : Type μ} (error : E → F) (r : Result E A) (f : A → B)
    (P : B → Type ν)
    → ((b : B) → map_ok f (map_err error r) ≡ ok b → P b)
    → FailsOr error (map_ok f (map_err error r)) P
FailsOr_of_ok error (err e) f P h = inl (e, refl)
FailsOr_of_ok error (ok a) f P h = inr (f a, refl, h (f a) refl)

pub FailsOr-map_ok {ℓ κ ι ν μ ξ} :
    {E : Type ℓ} {F : Type κ} {A : Type ι} {B : Type μ} (error : E → F) (f : A → B) (r : Result F A)
    (P : A → Type ν) (Q : B → Type ξ)
    → ((a : A) → P a → Q (f a))
    → FailsOr error r P
    → FailsOr error (map_ok f r) Q
FailsOr-map_ok error f r P Q g (inl (e, failed)) = inl (e, ap (map_ok f) failed)
FailsOr-map_ok error f r P Q g (inr (a, got, h)) = inr (f a, ap (map_ok f) got, g a h)

pub FailsOr-mono {ℓ κ ι ν μ} :
    {E : Type ℓ} {F : Type κ} {A : Type ι} (error : E → F) (r : Result F A) (P : A → Type ν)
    (Q : A → Type μ)
    → ((a : A) → P a → Q a)
    → FailsOr error r P
    → FailsOr error r Q
FailsOr-mono error r P Q g (inl failed) = inl failed
FailsOr-mono error r P Q g (inr (a, got, h)) = inr (a, got, g a h)

-- What a call leaves when it may panic: `unwrap`, `expect`, `assert!`, checked arithmetic.
pub data Outcome {ℓ} (A : Type ℓ) : Type ℓ where
  done : A → Outcome A
  panic : Outcome A

pub Outcome-cases {ℓ} : {A : Type ℓ} (o : Outcome A) → ((a : A) × (o ≡ done a)) ⊎ (o ≡ panic)
Outcome-cases (done a) = inl (a, refl)
Outcome-cases panic = inr refl

-- A panic because of such an error, or a value of which something holds.
abbrev pub PanicsOr {ℓ κ ι ν μ} :
    {E : Type ℓ} {F : Type κ} {A : Type ι} {B : Type μ}
    → (E → F)
    → Result F A
    → Outcome B
    → (B → Type ν)
    → Type (ℓ ⊔ κ ⊔ ι ⊔ ν ⊔ μ)
PanicsOr {E} {B = B} error r o P =
    ((e : E) × (r ≡ err (error e)) × (o ≡ panic)) ⊎ ((b : B) × (o ≡ done b) × P b)

pub PanicsOr-mono {ℓ κ ι ν μ ξ} :
    {E : Type ℓ} {F : Type κ} {A : Type ι} {B : Type μ} (error : E → F) (r : Result F A)
    (o : Outcome B) (P : B → Type ν) (Q : B → Type ξ)
    → ((b : B) → P b → Q b)
    → PanicsOr error r o P
    → PanicsOr error r o Q
PanicsOr-mono error r o P Q g (inl failed) = inl failed
PanicsOr-mono error r o P Q g (inr (b, got, h)) = inr (b, got, g b h)

pub done-injective {ℓ} : {A : Type ℓ} {a b : A} → done a ≡ done b → a ≡ b
done-injective p = cc

pub done-ne-panic {ℓ} : {A : Type ℓ} {a : A} → ¬ (done a ≡ panic)
done-ne-panic p = cc

-- What holds of the value of a call that returned one.
pub of_done {ℓ κ ι ν μ} :
    {E : Type ℓ} {F : Type κ} {A : Type ι} {B : Type μ} (error : E → F) (r : Result F A)
    (o : Outcome B) (P : B → Type ν) {b : B}
    → PanicsOr error r o P
    → o ≡ done b
    → P b
of_done error r o P (inl (e, failed, stops)) q = absurd (done-ne-panic (sym q ∙ stops))
of_done error r o P (inr (b, got, h)) q = subst P (done-injective (sym got ∙ q)) h

infixl 5 ◌>>=◌
abbrev pub ◌>>=◌ {ℓ κ ι} :
    {E : Type ℓ} {A : Type κ} {B : Type ι} → Result E A → (A → Result E B) → Result E B
ok a >>= f = f a
err e >>= f = err e

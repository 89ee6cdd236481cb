-- ===== src/Types/Attributes.antt =====
-- The `AttributeValue` of aws_sdk_dynamodb as an interface, and the helpers of db/src/types.rs
-- that read one.
use reth_crawler.Prelude.{ℕ, ◌≡◌, Bool, Option, none, some, List, [], map, Result, ok, err}
use reth_crawler.Text.{Text}
use reth_crawler.Text.Decimal.{u8_bound, u16_bound, parse}

-- The variants that the program builds, the accessors that it calls, and what an accessor answers
-- for a value of its own variant. An accessor's error is the value itself.
pub record Attributes : Type 1 where
  pub Value : Type 0
  pub s : Text → Value
  pub n : Text → Value
  pub l : List Value → Value
  pub bool : Bool → Value
  pub null : Bool → Value
  pub as_s : Value → Result Value Text
  pub as_n : Value → Result Value Text
  pub as_l : Value → Result Value (List Value)
  pub as_bool : Value → Result Value Bool
  pub as_s-s : (t : Text) → as_s (s t) ≡ ok t
  pub as_n-n : (t : Text) → as_n (n t) ≡ ok t
  pub as_l-l : (vs : List Value) → as_l (l vs) ≡ ok vs
  pub as_bool-bool : (b : Bool) → as_bool (bool b) ≡ ok b
  pub as_bool-null : (b : Bool) → as_bool (null b) ≡ err (null b)

module _ (A : Attributes) where
  open A use {Value, as_s, as_n, as_l, as_bool}

  unfoldable pub as_string : Option Value → Text → Text
  as_string none default = default
  as_string (some v) default = elim (as_s v) [ ok s ↦ s | err _ ↦ default ]

  -- `as_u16` and `as_u8`, up to the bound of the type that `parse` reads
  unfoldable pub as_uint : ℕ → Option Value → ℕ → ℕ
  as_uint bound none default = default
  as_uint bound (some v) default = elim (as_n v) [
    | ok n ↦ elim (parse bound n) [ some n ↦ n | none ↦ default ]
    | err _ ↦ default
  ]

  unfoldable pub as_u16 : Option Value → ℕ → ℕ
  unfolding as_uint
  as_u16 = as_uint u16_bound

  unfoldable pub as_u8 : Option Value → ℕ → ℕ
  unfolding as_uint
  as_u8 = as_uint u8_bound

  unfoldable pub as_string_vec : Option Value → List Text
  as_string_vec none = []
  as_string_vec (some val) = elim (as_l val) [
    | ok val ↦ map (λ v. as_string (some v) []) val
    | err _ ↦ []
  ]

  unfoldable pub as_option_bool : Option Value → Option Bool → Option Bool
  as_option_bool none default = default
  as_option_bool (some v) default = elim (as_bool v) [ ok n ↦ some n | err _ ↦ default ]

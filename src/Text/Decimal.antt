-- ===== src/Text/Decimal.antt =====
-- Decimal numbers: `to_string` of an unsigned number, and `parse::<u8>`, `parse::<u16>`.
pub mod RoundTrip
use reth_crawler.Prelude.{
  ℕ, zero, suc, ◌+◌, ◌-◌, ◌*◌, ◌/◌, ◌%◌, ◌^◌, ◌≤◌, ◌<◌, ◌≡◌, refl, ap, ◌∙◌, inl, inr, Bool, true,
  false, ◌&&◌, Option, none, some, List, [], ◌∷◌, ◌++◌, arith, ltb, leb, ◌==◌, nat_eq,
  if◌then◌else◌, Bool-cases,
}
use reth_crawler.Text.{Text, text}

abbrev pub u8_bound : ℕ
u8_bound = 2 ^ 8

abbrev pub u16_bound : ℕ
u16_bound = 2 ^ 16

digits_on : ℕ → ℕ → Text
digits_on zero n = []
digits_on (suc fuel) n =
    let rest = digits_on fuel (n / 10) in
    if ltb n 10 then (48 + n) ∷ [] else rest ++ ((48 + n % 10) ∷ [])

-- `n.to_string()`; the fuel is above the number, and so above the number of its digits
unfoldable pub to_string : ℕ → Text
unfolding digits_on
to_string n = digits_on (suc n) n

scan : ℕ → ℕ → Text → Option ℕ
scan bound n [] = some n
scan bound n (c ∷ s) =
    let rest = scan bound (n * 10 + (c - 48)) s in
    if leb 48 c && leb c 57 then (if ltb (n * 10 + (c - 48)) bound then rest else none) else none

-- `s.parse()` into an unsigned type with values below `bound`: one `+` may stand in front, there
-- is at least one digit, and a value out of range is refused
unfoldable pub parse : ℕ → Text → Option ℕ
unfolding scan
parse bound [] = none
parse bound (c ∷ []) = scan bound 0 (c ∷ [])
parse bound (c ∷ d ∷ s) = if c == b'+' then scan bound 0 (d ∷ s) else scan bound 0 (c ∷ d ∷ s)

to_string_test : to_string 30303 ≡ text "30303"
unfolding to_string
to_string_test = refl

parse_test : parse u16_bound (text "+0080") ≡ some 80
unfolding parse
parse_test = refl

parse_overflow : parse u16_bound (text "65536") ≡ none
unfolding parse
parse_overflow = refl

-- ===== src/Text/Decimal/RoundTrip.antt =====
-- Printing a number in decimal and parsing the text gives the number back.
use reth_crawler.Prelude.{
  ℕ, zero, suc, ◌+◌, ◌-◌, ◌*◌, ◌/◌, ◌≤◌, ◌<◌, ◌≡◌, refl, ◌∙◌, inl, inr, Option, none, some, [], ◌∷◌,
  ◌++◌, arith, ltb, nat_eq, Bool-cases,
}
use reth_crawler.Text.{Text}
use reth_crawler.Text.Decimal.{digits_on, to_string, scan, parse}

abbrev scan_on : ℕ → Option ℕ → Text → Option ℕ
scan_on bound none s = none
scan_on bound (some n) s = scan bound n s

scan-append : (bound n : ℕ) (s t : Text) → scan bound n (s ++ t) ≡ scan_on bound (scan bound n s) t
unfolding scan
scan-append bound n [] t = refl
scan-append bound n (c ∷ s) t = ground (arith, scan-append bound (n * 10 + (c - 48)) s t)

scan-digits_on :
    (bound fuel n : ℕ) → n < fuel → n < bound → scan bound 0 (digits_on fuel n) ≡ some n
unfolding digits_on scan
scan-digits_on bound zero n h b = absurd (omega arith)
scan-digits_on bound (suc fuel) n h b = elim (Bool-cases (ltb n 10)) [
  | inl one ↦ rw one (ground arith)
  | inr more ↦
      let ih = scan-digits_on bound fuel (n / 10) (ground arith) (ground arith) in
      rw more (rw scan-append (rw ih (ground arith)))
]

-- The text is there, and begins with no sign.
abbrev Starts : Text → Type 0
Starts [] = ⊥
Starts (c ∷ s) = 48 ≤ c

Starts-append : (s t : Text) → Starts s → Starts (s ++ t)
Starts-append [] t h = elim h [ ]
Starts-append (c ∷ s) t h = h

digits_on-Starts : (fuel n : ℕ) → Starts (digits_on (suc fuel) n)
unfolding digits_on
digits_on-Starts zero n = elim (Bool-cases (ltb n 10)) [
  | inl one ↦ rw one (omega arith)
  | inr more ↦ rw more (omega arith)
]
digits_on-Starts (suc fuel) n = elim (Bool-cases (ltb n 10)) [
  | inl one ↦ rw one (omega arith)
  | inr more ↦ rw more (Starts-append _ _ (digits_on-Starts fuel (n / 10)))
]

parse-scan : (bound : ℕ) (s : Text) → Starts s → parse bound s ≡ scan bound 0 s
unfolding parse
parse-scan bound [] h = elim h [ ]
parse-scan bound (c ∷ []) h = refl
parse-scan bound (c ∷ d ∷ s) h = ground arith

-- A number below the bound survives printing and parsing.
pub parse-to_string : (bound n : ℕ) → n < bound → parse bound (to_string n) ≡ some n
unfolding to_string
parse-to_string bound n h =
    parse-scan bound (digits_on (suc n) n) (digits_on-Starts n n)
    ∙ scan-digits_on bound (suc n) n (omega arith) h

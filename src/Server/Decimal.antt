-- ===== src/Server/Decimal.antt =====
-- `std::to_string` of an `int` that is not negative, and its inverse.
use monidroid.Base.{
  ℕ, zero, suc, ◌+◌, ◌-◌, ◌*◌, ◌/◌, ◌%◌, ◌<◌, ◌≡◌, inl, inr, refl, sym, ap, ◌∙◌, arith, List, [],
  ◌∷◌, ◌++◌, ltb, if◌then◌else◌, ltb→le, Bool-cases,
}

-- The digits from the front; `fuel` bounds their number.
digits : ℕ → ℕ → List ℕ
digits zero n = []
digits (suc fuel) n =
    let more = digits fuel (n / 10) in
    if ltb n 10 then (b'0' + n) ∷ [] else more ++ ((b'0' + n % 10) ∷ [])

-- A number below 2 ^ 31 has at most ten digits; the fuel is enough for every number.
unfoldable pub to_string : ℕ → List ℕ
unfolding digits
to_string n = digits (n + 1) n

-- The number that a string of digits stands for.
unfoldable pub value : ℕ → List ℕ → ℕ
value acc [] = acc
value acc (c ∷ cs) = value (acc * 10 + (c - b'0')) cs

value-append : (acc : ℕ) (xs ys : List ℕ) → value acc (xs ++ ys) ≡ value (value acc xs) ys
unfolding value
value-append acc [] ys = refl
value-append acc (x ∷ xs) ys = value-append (acc * 10 + (x - b'0')) xs ys

value-digits : (fuel n : ℕ) → n < fuel → value 0 (digits fuel n) ≡ n
unfolding digits
value-digits zero n h = absurd (omega arith)
value-digits (suc fuel) n h = elim (Bool-cases (ltb n 10)) [
  | inl small ↦ rw small (unfold value in omega arith)
  | inr large ↦ rw large (
      value-append 0 (digits fuel (n / 10)) _
      ∙ rw (value-digits fuel (n / 10) (omega (arith, ltb→le n 10 large)))
          (unfold value in omega arith))
]

pub value-to_string : (n : ℕ) → value 0 (to_string n) ≡ n
unfolding to_string
value-to_string n = value-digits (n + 1) n (omega arith)

-- Different numbers have different strings.
pub to_string-injective : (m n : ℕ) → to_string m ≡ to_string n → m ≡ n
to_string-injective m n e = sym (value-to_string m) ∙ ap (value 0) e ∙ value-to_string n

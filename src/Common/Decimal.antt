-- ===== src/Common/Decimal.antt =====
-- Decimal numbers as the standard library prints and parses a `u64`.
use native.Mathlib.Nat.{pow-suc}
use shardlite.Common.{
  ℕ, zero, suc, ◌+◌, ◌-◌, ◌*◌, ◌/◌, ◌%◌, ◌^◌, ◌<◌, ◌≤◌, ◌≡◌, ◌≢◌, ◌&&◌, ◌==◌, ◌++◌, refl, ◌∙◌, inl,
  inr, Option, none, some, List, [], ◌∷◌, arith, ltb, leb, if◌then◌else◌, All, Bool-cases, ltb→lt,
  ltb→ge,
}
use shardlite.Common.Text.{IsPlain}

abbrev pub u64 : ℕ
u64 = 2 ^ 64

-- A u64 has at most twenty digits.
print_from : ℕ → ℕ → List ℕ
print_from zero n = []
print_from (suc fuel) n =
    let front = print_from fuel (n / 10) in
    if ltb n 10 then (48 + n) ∷ [] else front ++ (48 + n % 10) ∷ []

unfoldable pub print : ℕ → List ℕ
unfolding print_from
print n = print_from 20 n

-- `none` on a character that is no digit, and when the value leaves the u64 range.
parse_from : ℕ → List ℕ → Option ℕ
parse_from acc [] = some acc
parse_from acc (c ∷ r) =
    let rest = parse_from (acc * 10 + (c - 48)) r in
    if leb 48 c && leb c 57 && ltb (acc * 10 + (c - 48)) u64 then rest else none

-- `str::parse::<u64>`: an empty text is refused, a leading plus sign is allowed before digits.
unfoldable pub parse : List ℕ → Option ℕ
unfolding parse_from
parse [] = none
parse (c ∷ []) = if c == b'+' then none else parse_from 0 (c ∷ [])
parse (c ∷ d ∷ r) = if c == b'+' then parse_from 0 (d ∷ r) else parse_from 0 (c ∷ d ∷ r)

-- Reading a printed number, and then more text.
parse_from-append :
    (l r : List ℕ) (acc n : ℕ)
    → parse_from acc l ≡ some n
    → parse_from acc (l ++ r) ≡ parse_from n r
unfolding parse_from
parse_from-append [] r acc n h = ground arith
parse_from-append (c ∷ l) r acc n h = ground (arith, parse_from-append l r (acc * 10 + (c - 48)) n)

digit : (n : ℕ) → n < 10 → parse_from 0 ((48 + n) ∷ []) ≡ some n
unfolding parse_from
digit n h = ground arith

last_digit : (n : ℕ) → n < u64 → parse_from (n / 10) ((48 + n % 10) ∷ []) ≡ some n
unfolding parse_from
last_digit n h = ground arith

more_digits : (fuel n : ℕ) → n < 10 ^ suc fuel → 10 ≤ n → 0 < fuel
more_digits zero n h ge = absurd (omega arith)
more_digits (suc fuel) n h ge = omega arith

parse_from-print_from :
    (fuel n : ℕ) → n < 10 ^ fuel → n < u64 → 0 < fuel → parse_from 0 (print_from fuel n) ≡ some n
unfolding parse_from print_from
parse_from-print_from zero n h b p = absurd (omega arith)
parse_from-print_from (suc fuel) n h b p = elim (Bool-cases (ltb n 10)) [
  | inl small ↦ rw (small, print_from) (digit n (ltb→lt n 10 small))
  | inr big ↦
      let ge = ltb→ge n 10 big in
      let more : 0 < fuel = more_digits fuel n h ge in
      let front =
        parse_from-print_from fuel (n / 10) (omega (arith, pow-suc 10 fuel)) (omega arith) more in
      rw (big, print_from)
        (parse_from-append (print_from fuel (n / 10)) ((48 + n % 10) ∷ []) 0 (n / 10) front
          ∙ last_digit n b)
]

abbrev IsDigit : ℕ → Type 0
IsDigit c = (48 ≤ c) × (c ≤ 57)

All-append {ℓ κ} :
    {A : Type ℓ} (P : A → Type κ) (xs ys : List A) → All P xs → All P ys → All P (xs ++ ys)
All-append P [] ys a b = b
All-append P (x ∷ xs) ys a b = (a.0, All-append P xs ys a.1 b)

print_from-digits : (fuel n : ℕ) → All IsDigit (print_from fuel n)
unfolding print_from
print_from-digits zero n = tt
print_from-digits (suc fuel) n = elim (Bool-cases (ltb n 10)) [
  | inl small ↦ rw (small, print_from) (omega (arith, ltb→lt n 10 small))
  | inr big ↦
      rw (big, print_from)
        (All-append IsDigit (print_from fuel (n / 10)) _ (print_from-digits fuel (n / 10))
          (omega arith))
]

print-eq : (n : ℕ) → n < u64 → parse_from 0 (print n) ≡ some n
unfolding print
print-eq n h = parse_from-print_from 20 n (omega arith) h (omega arith)

parse-digits :
    (l : List ℕ) (n : ℕ) → All IsDigit l → l ≢ [] → parse_from 0 l ≡ some n → parse l ≡ some n
unfolding parse
parse-digits [] n d ne e = absurd (ne refl)
parse-digits (c ∷ []) n d ne e = ground arith
parse-digits (c ∷ c' ∷ r) n d ne e = ground arith

snoc-ne : (l : List ℕ) (c : ℕ) → l ++ c ∷ [] ≢ []
snoc-ne [] c e = cc
snoc-ne (d ∷ l) c e = cc

print_from-ne : (fuel n : ℕ) → print_from (suc fuel) n ≢ []
unfolding print_from
print_from-ne fuel n e = ground (arith, snoc-ne (print_from fuel (n / 10)) (48 + n % 10))

-- Parsing what was printed gives the number back.
pub parse-print : (n : ℕ) → n < u64 → parse (print n) ≡ some n
unfolding print
parse-print n h =
    parse-digits (print_from 20 n) n (print_from-digits 20 n) (print_from-ne 19 n) (print-eq n h)

digits-IsPlain : (l : List ℕ) → All IsDigit l → All IsPlain l
digits-IsPlain [] d = tt
digits-IsPlain (c ∷ l) d = (ground arith, digits-IsPlain l d.1)

-- A printed number has neither spaces nor lines' ends in it.
pub print-IsPlain : (n : ℕ) → All IsPlain (print n)
unfolding print
print-IsPlain n = digits-IsPlain (print_from 20 n) (print_from-digits 20 n)

-- A printed number begins with a digit.
pub print-digits : (n : ℕ) → All (λ c. (48 ≤ c) × (c ≤ 57)) (print n)
unfolding print
print-digits n = print_from-digits 20 n

-- ===== src/Common/Text.antt =====
-- The text functions of the standard library that the line-based files use, on ASCII bytes:
-- `str::lines`, `str::split_once`, `str::trim`.
use shardlite.Common.{
  ℕ, ◌≡◌, ◌≢◌, ◌&&◌, ◌||◌, ◌==◌, ◌++◌, refl, ap, Bool, true, false, Option, none, some, List, [],
  ◌∷◌, map, arith, leb, if◌then◌else◌, All,
}

abbrev pub newline : ℕ
newline = 10

push : ℕ → List (List ℕ) → List (List ℕ)
push c [] = (c ∷ []) ∷ []
push c (l ∷ ls) = (c ∷ l) ∷ ls

split_lines : List ℕ → List (List ℕ)
unfolding push
split_lines [] = []
split_lines (c ∷ r) = if c == newline then [] ∷ split_lines r else push c (split_lines r)

-- A carriage return at the end of a line belongs to its end.
strip_cr : List ℕ → List ℕ
strip_cr [] = []
strip_cr (c ∷ []) = if c == 13 then [] else c ∷ []
strip_cr (c ∷ d ∷ r) = c ∷ strip_cr (d ∷ r)

unfoldable pub lines : List ℕ → List (List ℕ)
unfolding split_lines strip_cr
lines text = map strip_cr (split_lines text)

-- The parts before and after the first `sep`.
unfoldable pub split_once : ℕ → List ℕ → Option (List ℕ × List ℕ)
split_once sep [] = none
split_once sep (c ∷ r) =
    let rest = elim (split_once sep r) as (λ _. Option (List ℕ × List ℕ)) [
      | none ↦ none
      | some p ↦ some (c ∷ p.0, p.1)
    ] in
    if c == sep then some ([], r) else rest

abbrev pub is_space : ℕ → Bool
is_space c = c == 32 || (leb 9 c && leb c 13)

trim_start : List ℕ → List ℕ
trim_start [] = []
trim_start (c ∷ r) = if is_space c then trim_start r else c ∷ r

-- Without the spaces at the end.
trim_end : List ℕ → List ℕ
trim_end [] = []
trim_end (c ∷ r) = elim (trim_end r) [ [] ↦ if is_space c then [] else c ∷ [] | d ∷ t ↦ c ∷ d ∷ t ]

unfoldable pub trim : List ℕ → List ℕ
unfolding trim_start trim_end
trim s = trim_end (trim_start s)

-- A character of a printed line: neither a space nor a line's end.
abbrev pub IsPlain : ℕ → Type 0
IsPlain c = is_space c ≡ false

strip_cr-plain : (l : List ℕ) → All IsPlain l → strip_cr l ≡ l
unfolding strip_cr
strip_cr-plain [] h = refl
strip_cr-plain (c ∷ []) h = ground arith
strip_cr-plain (c ∷ d ∷ r) h = ap (λ t. c ∷ t) (strip_cr-plain (d ∷ r) h.1)

split_lines-line :
    (l r : List ℕ) → All IsPlain l → split_lines (l ++ newline ∷ r) ≡ l ∷ split_lines r
unfolding split_lines
split_lines-line [] r h = refl
split_lines-line (c ∷ l) r h = ground (arith, split_lines-line l r h.1)

-- A plain line and its newline come off the front of a text.
pub lines-line : (l r : List ℕ) → All IsPlain l → lines (l ++ newline ∷ r) ≡ l ∷ lines r
unfolding lines
lines-line l r h = rw (split_lines-line l r h, strip_cr-plain l h) refl

pub lines-empty : lines [] ≡ []
unfolding lines
lines-empty = refl

trim_end-plain : (l : List ℕ) → All IsPlain l → trim_end l ≡ l
unfolding trim_end
trim_end-plain [] h = refl
trim_end-plain (c ∷ r) h = ground (arith, trim_end-plain r h.1)

pub trim-plain : (l : List ℕ) → All IsPlain l → trim l ≡ l
unfolding trim
trim-plain [] h = refl
trim-plain (c ∷ r) h = ground (arith, trim_end-plain (c ∷ r) h)

-- The first `sep` splits the text there.
pub split_once-append :
    (sep : ℕ) (l r : List ℕ) → All (λ c. c ≢ sep) l → split_once sep (l ++ sep ∷ r) ≡ some (l, r)
unfolding split_once
split_once-append sep [] r h = ground arith
split_once-append sep (c ∷ l) r h = ground (arith, split_once-append sep l r h.1)

-- Equality of byte strings.
unfoldable pub same_text : List ℕ → List ℕ → Bool
same_text [] [] = true
same_text [] (d ∷ t) = false
same_text (c ∷ s) [] = false
same_text (c ∷ s) (d ∷ t) = if c == d then same_text s t else false

pub same_text_refl : (s : List ℕ) → same_text s s ≡ true
unfolding same_text
same_text_refl [] = refl
same_text_refl (c ∷ s) = ground (arith, same_text_refl s)

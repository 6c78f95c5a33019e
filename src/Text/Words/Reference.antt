-- ===== src/Text/Words/Reference.antt =====
-- `WordSplit` against a text that is cut into pieces, stripped and sifted, in a definition that
-- shares nothing with the code.
use logme.Prelude.{
  ℕ, zero, suc, ◌+◌, ◌≤◌, ◌<◌, ◌≡◌, refl, sym, ap, ◌∙◌, Bool, true, false, ◌||◌, ◌==◌,
  if◌then◌else◌, some, List, [], ◌∷◌, ◌++◌, length, take, drop, map, Bool-cases, inl, inr, arith,
}
use logme.Text.Trim.{is_space, last_not_of_end, first_not_of, trim_spaces}
use logme.Text.Pieces.{pieces}
use logme.Text.Words.{keep_token, word_split}
use logme.Text.Words.Loop.{split_tokens, word_split-split_tokens}

-- A blank: space, tab, line feed, carriage return, form feed, vertical tab.
abbrev is_among : ℕ → List ℕ → Bool
is_among c [] = false
is_among c (x ∷ xs) = c == x || is_among c xs

abbrev is_blank : ℕ → Bool
is_blank c = is_among c (32 ∷ 9 ∷ 10 ∷ 13 ∷ 12 ∷ 11 ∷ [])

-- A text without the blanks at its front, and without those at its end.
abbrev without_front : List ℕ → List ℕ
without_front [] = []
without_front (c ∷ s) = if is_blank c then without_front s else c ∷ s

abbrev onto_rest : ℕ → List ℕ → List ℕ
onto_rest c [] = if is_blank c then [] else c ∷ []
onto_rest c (d ∷ s) = c ∷ d ∷ s

abbrev without_end : List ℕ → List ℕ
without_end [] = []
without_end (c ∷ s) = onto_rest c (without_end s)

unfoldable pub stripped : List ℕ → List ℕ
stripped s = without_front (without_end s)

abbrev pub sifted : List (List ℕ) → List (List ℕ)
sifted [] = []
sifted ([] ∷ xs) = sifted xs
sifted ((c ∷ t) ∷ xs) = (c ∷ t) ∷ sifted xs

-- The words that are promised, of the pieces of a text.
unfoldable pub tokens : (trim ignore_empty : Bool) → List (List ℕ) → List (List ℕ)
unfolding stripped
tokens false false xs = xs
tokens true false xs = map stripped xs
tokens false true xs = sifted xs
tokens true true xs = sifted (map stripped xs)

is_space-is_blank : (c : ℕ) → is_space c ≡ is_blank c
is_space-is_blank c = ground arith

last_not_of_end-within : (s : List ℕ) → last_not_of_end s ≤ length s
unfolding last_not_of_end
last_not_of_end-within [] = omega arith
last_not_of_end-within (c ∷ s) = ground (arith, last_not_of_end-within s)

take-onto_rest :
    (c n : ℕ) (s : List ℕ)
    → n ≤ length s
    → take (if n == 0 then (if is_space c then 0 else 1) else n + 1) (c ∷ s)
      ≡ onto_rest c (take n s)
take-onto_rest c zero s h = elim (Bool-cases (is_space c)) [
  | inl space ↦ rw (space, sym (is_space-is_blank c) ∙ space) refl
  | inr other ↦ rw (other, sym (is_space-is_blank c) ∙ other) refl
]
take-onto_rest c (suc n) [] h = absurd (omega arith)
take-onto_rest c (suc n) (d ∷ s) h =
    let positive : (suc n == 0) ≡ false = ground arith in
    rw positive (ap (λ k. take k (c ∷ d ∷ s)) {x = suc n + 1} {y = suc (suc n)} (omega arith))

take-last_not_of_end : (s : List ℕ) → take (last_not_of_end s) s ≡ without_end s
unfolding last_not_of_end
take-last_not_of_end [] = refl
take-last_not_of_end (c ∷ s) =
    take-onto_rest c (last_not_of_end s) s (last_not_of_end-within s)
    ∙ ap (onto_rest c) (take-last_not_of_end s)

drop-first_not_of : (s : List ℕ) → drop (first_not_of s) s ≡ without_front s
unfolding first_not_of
drop-first_not_of [] = refl
drop-first_not_of (c ∷ s) = elim (Bool-cases (is_space c)) [
  | inl space ↦ rw (space, sym (is_space-is_blank c) ∙ space) (drop-first_not_of s)
  | inr other ↦ rw (other, sym (is_space-is_blank c) ∙ other) refl
]

trim_spaces-stripped : (s : List ℕ) → trim_spaces s ≡ stripped s
unfolding trim_spaces stripped
trim_spaces-stripped s =
    drop-first_not_of (take (last_not_of_end s) s) ∙ ap without_front (take-last_not_of_end s)

kept_sifted : (x : List ℕ) (xs : List (List ℕ)) → keep_token true x ++ sifted xs ≡ sifted (x ∷ xs)
kept_sifted [] xs = refl
kept_sifted (c ∷ t) xs = refl

module _ (is_delimiter : ℕ → Bool) where
  split_tokens-tokens :
      (trim ignore_empty : Bool) (xs : List (List ℕ))
      → split_tokens is_delimiter trim ignore_empty xs ≡ tokens trim ignore_empty xs
  unfolding split_tokens tokens
  split_tokens-tokens false false [] = refl
  split_tokens-tokens false true [] = refl
  split_tokens-tokens true false [] = refl
  split_tokens-tokens true true [] = refl
  split_tokens-tokens false false (x ∷ xs) = ap (◌∷◌ x) (split_tokens-tokens false false xs)
  split_tokens-tokens true false (x ∷ xs) =
      ap (λ y. y ∷ split_tokens is_delimiter true false xs) (trim_spaces-stripped x)
      ∙ ap (◌∷◌ (stripped x)) (split_tokens-tokens true false xs)
  split_tokens-tokens false true (x ∷ xs) =
      ap (◌++◌ (keep_token true x)) (split_tokens-tokens false true xs) ∙ kept_sifted x xs
  split_tokens-tokens true true (x ∷ xs) =
      ap (λ y. keep_token true y ++ split_tokens is_delimiter true true xs) (trim_spaces-stripped x)
      ∙ ap (◌++◌ (keep_token true (stripped x))) (split_tokens-tokens true true xs)
      ∙ kept_sifted (stripped x) (map stripped xs)

  -- `WordSplit` ends after at most one round more than the text has characters, and returns, trimmed
  -- where `trim` is set, the pieces between the delimiters in their order: all of them, or those that
  -- are not empty where `ignoreEmpty` is set. Nothing stands for what would follow a delimiter at the
  -- end of the text.
  pub word_split-tokens :
      (trim ignore_empty : Bool) (fuel : ℕ) (s : List ℕ)
      → length s < fuel
      → word_split is_delimiter trim ignore_empty fuel s
        ≡ some (tokens trim ignore_empty (pieces is_delimiter s))
  word_split-tokens trim ignore_empty fuel s h =
      word_split-split_tokens is_delimiter trim ignore_empty fuel s h
      ∙ ap some (split_tokens-tokens trim ignore_empty (pieces is_delimiter s))

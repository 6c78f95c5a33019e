-- ===== src/Text/Words.antt =====
-- `WordSplit` of Utils.cpp, on fuel, with `none` where the rounds are too few.
pub mod Loop
pub mod Reference
use logme.Prelude.{
  ℕ, zero, suc, ◌+◌, ◌-◌, ◌≤◌, ◌<◌, ◌≡◌, refl, ap, Bool, true, false, ◌&&◌, ◌||◌, not, ltb, leb,
  if◌then◌else◌, Option, none, some, List, [], ◌∷◌, ◌++◌, length, take, drop, is_empty, Bool-cases,
  inl, inr, arith,
}
use logme.Text.Trim.{trim_spaces}
use logme.Text.Pieces.{first_of, pieces}

-- `find_first_of(delimiters, pos)`, for the positions of a text.
abbrev pub later_position : ℕ → Option ℕ → Option ℕ
later_position pos none = none
later_position pos (some n) = some (n + pos)

unfoldable pub find_from : (ℕ → Bool) → List ℕ → ℕ → Option ℕ
unfolding first_of
find_from p s pos = later_position pos (first_of p (drop pos s))

abbrev pub end_or : ℕ → Option ℕ → ℕ
end_or n none = n
end_or n (some e) = e

-- A token as it is kept: `trim` and `ignoreEmpty`.
abbrev pub trim_token : Bool → List ℕ → List ℕ
trim_token trim token = if trim then trim_spaces token else token

abbrev pub keep_token : Bool → List ℕ → List (List ℕ)
keep_token ignore_empty token = if not ignore_empty || not (is_empty token) then token ∷ [] else []

module _ (is_delimiter : ℕ → Bool) (trim ignore_empty : Bool) where
  -- A start of `npos` ends the loop too; it is the length of the text here.
  unfoldable pub word_loop : (fuel : ℕ) → List ℕ → ℕ → List (List ℕ) → Option (List (List ℕ))
  unfolding find_from
  word_loop zero s start words = none
  word_loop (suc fuel) s start words =
      let end = end_or (length s) (find_from is_delimiter s start) in
      let token = trim_token trim (take (end - start) (drop start s)) in
      let next = if leb (length s) end then length s else end + 1 in
      let rest = word_loop fuel s next (words ++ keep_token ignore_empty token) in
      if ltb start (length s) then rest else some words

  unfoldable pub word_split : (fuel : ℕ) → List ℕ → Option (List (List ℕ))
  unfolding word_loop
  word_split fuel s = word_loop fuel s 0 []

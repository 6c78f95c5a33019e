-- ===== src/Text/Words/Loop.antt =====
-- The loop of `WordSplit` on the pieces of a text.
use logme.Prelude.{
  ℕ, zero, suc, ◌+◌, ◌-◌, ◌≤◌, ◌<◌, ◌≡◌, refl, sym, ap, ◌∙◌, Bool, false, leb, ltb, lt→ltb,
  if◌then◌else◌, none, some, List, [], ◌∷◌, ◌++◌, length, take, drop, take_all, drop_beyond,
  length-drop, append-nil, append_assoc, Bool-cases, Option-cases, inl, inr, arith,
}
use logme.Text.Pieces.{first_of, pieces, pieces_whole, pieces-first_of}
use logme.Text.Words.{
  later_position, find_from, end_or, trim_token, keep_token, word_loop, word_split,
}

module _ {ℓ} {A : Type ℓ} where
  pub drop-drop : (m n : ℕ) (xs : List A) → drop m (drop n xs) ≡ drop (m + n) xs
  drop-drop m zero xs = ap (λ k. drop k xs) (omega arith)
  drop-drop zero (suc n) [] = sym (drop_beyond [] (0 + suc n) (omega arith))
  drop-drop (suc m) (suc n) [] = sym (drop_beyond [] (suc m + suc n) (omega arith))
  drop-drop m (suc n) (x ∷ xs) =
      drop-drop m n xs ∙ ap (λ k. drop k (x ∷ xs)) {x = suc (m + n)} {y = m + suc n} (omega arith)

-- A text that is not at its end and has no separator left is one piece.
pub pieces_last :
    (p : ℕ → Bool) (s : List ℕ) → 0 < length s → first_of p s ≡ none → pieces p s ≡ s ∷ []
pieces_last p [] h e = absurd (omega arith)
pieces_last p (c ∷ s) h e = pieces_whole p c s e

module _ (is_delimiter : ℕ → Bool) (trim ignore_empty : Bool) where
  -- What the code keeps of some pieces.
  unfoldable pub split_tokens : List (List ℕ) → List (List ℕ)
  split_tokens [] = []
  split_tokens (x ∷ xs) = keep_token ignore_empty (trim_token trim x) ++ split_tokens xs

  abbrev next_start : List ℕ → ℕ → ℕ
  next_start s end = if leb (length s) end then length s else end + 1

  abbrev token_at : List ℕ → ℕ → ℕ → List ℕ
  token_at s start end = trim_token trim (take (end - start) (drop start s))

  -- One round, once the position of the next separator is known.
  round :
      (fuel : ℕ) (s : List ℕ) (start : ℕ) (words : List (List ℕ)) (end : ℕ)
      → start < length s
      → end_or (length s) (find_from is_delimiter s start) ≡ end
      → word_loop is_delimiter trim ignore_empty (suc fuel) s start words
        ≡ word_loop is_delimiter trim ignore_empty fuel s
            (next_start s end)
            (words ++ keep_token ignore_empty (token_at s start end))
  unfolding word_loop
  round fuel s start words end h e = rw (word_loop, lt→ltb _ _ h, e) refl

  round_end :
      (fuel : ℕ) (s : List ℕ) (start : ℕ) (words : List (List ℕ))
      → length s ≤ start
      → word_loop is_delimiter trim ignore_empty (suc fuel) s start words ≡ some words
  unfolding word_loop
  round_end fuel s start words h =
      let outside : ltb start (length s) ≡ false = ground arith in rw (word_loop, outside) refl

  abbrev token : List ℕ → List (List ℕ)
  token x = keep_token ignore_empty (trim_token trim x)

  pub split_tokens-cons :
      (x : List ℕ) (xs : List (List ℕ)) → split_tokens (x ∷ xs) ≡ token x ++ split_tokens xs
  unfolding split_tokens
  split_tokens-cons x xs = refl

  word_loop_lem :
      (fuel : ℕ) (s : List ℕ) (start : ℕ) (words : List (List ℕ))
      → start ≤ length s
      → length s < start + fuel
      → word_loop is_delimiter trim ignore_empty fuel s start words
        ≡ some (words ++ split_tokens (pieces is_delimiter (drop start s)))
  unfolding split_tokens pieces find_from
  word_loop_lem zero s start words k h = absurd (omega arith)
  word_loop_lem (suc fuel) s start words k h = elim (Bool-cases (ltb start (length s))) [
    | inr ended ↦
        round_end fuel s start words (ground arith)
        ∙ rw (drop_beyond s start (ground arith)) (ap some (sym (append-nil words)))
    | inl inside ↦ elim (Option-cases (first_of is_delimiter (drop start s))) [
      | inl last ↦
          let below : start < length s = ground arith in
          let at_end : next_start s (length s) ≡ length s = ground arith in
          let whole : take (length s - start) (drop start s) ≡ drop start s =
            take_all (drop start s) (length s - start) (omega (arith, length-drop start s)) in
          let one =
            pieces_last is_delimiter (drop start s) (omega (arith, length-drop start s)) last in
          round fuel s start words (length s) below
            (ap (λ o. end_or (length s) (later_position start o)) last)
          ∙ rw (at_end, whole)
              (word_loop_lem fuel s (length s) _ (omega arith) (omega arith)
                ∙ rw (one, drop_beyond s (length s) (omega arith))
                    (ap some (append_assoc words (token (drop start s)) [])))
      | inr (n, found) ↦
          let below : start < length s = ground arith in
          let (first, within) = pieces-first_of is_delimiter (drop start s) n found in
          let inside_end : n + start < length s = omega (arith, within, length-drop start s) in
          let goes_on : next_start s (n + start) ≡ n + start + 1 = ground arith in
          let short : take (n + start - start) (drop start s) ≡ take n (drop start s) =
            ap (λ m. take m (drop start s)) {x = n + start - start} {y = n} (omega arith) in
          let after : drop (suc n) (drop start s) ≡ drop (n + start + 1) s =
            drop-drop (suc n) start s
            ∙ ap (λ m. drop m s) {x = suc n + start} {y = n + start + 1} (omega arith) in
          round fuel s start words (n + start) below
            (ap (λ o. end_or (length s) (later_position start o)) found)
          ∙ rw (goes_on, short)
              (word_loop_lem fuel s (n + start + 1) _ (omega arith) (omega arith)
                ∙ ap some (
                    append_assoc words (token (take n (drop start s))) _
                    ∙ ap (◌++◌ words) (
                        ap
                          (λ r.
                            token (take n (drop start s)) ++ split_tokens (pieces is_delimiter r))
                          (sym after)
                        ∙ sym (ap split_tokens first))))
    ]
  ]

  pub word_split-split_tokens :
      (fuel : ℕ) (s : List ℕ)
      → length s < fuel
      → word_split is_delimiter trim ignore_empty fuel s
        ≡ some (split_tokens (pieces is_delimiter s))
  unfolding word_split
  word_split-split_tokens fuel s h = word_loop_lem fuel s 0 [] (omega arith) (omega arith)

-- ===== src/Logger/Collapse/Counting.antt =====
-- Repeated messages, each `limit`-th of which is shown.
use logme.Prelude.{
  ℕ, ◌+◌, ◌<◌, ◌≡◌, refl, ap, Bool, true, false, ltb, ◌==◌, List, [], ◌∷◌, ◌⊎◌, inl, inr,
  Bool-cases, All, length, add64, u64_mod, arith,
}
use logme.Logger.Collapse.{
  count, CollapseContextCache, collapse_key, collapse, collapse_each, reported, AreRepeats,
}
use logme.Text.Replace.{same_text}

-- Of `n` messages those that are held back and those that are shown, which report `limit`; `r` are not
-- reported before, and `r'` after them.
pub record Counted (limit r n : ℕ) (answers : List (Bool × ℕ)) (r' : ℕ) : Type 0 where
  pub total : reported answers + r' ≡ r + n
  pub below : r' < limit
  pub each : All (λ a. (a ≡ (false, 0)) ⊎ (a ≡ (true, limit))) answers

module _ (c : CollapseContextCache) (counts : c.mode ≡ count) (positive : 0 < c.limit)
    (small : c.limit < u64_mod) (below : c.repeat_count < c.limit) where
  collapse-held :
      (text : List ℕ) (now : ℕ)
      → same_text c.last_key (collapse_key c.ignore_regex text) ≡ true
      → ltb (add64 c.repeat_count 1) c.limit ≡ true
      → collapse c text now ≡ ((false, 0), record c { repeat_count = add64 c.repeat_count 1 })
  unfolding collapse
  collapse-held text now same less =
      let on : (c.limit == 0) ≡ false = ground arith in rw (counts, on, same, less) refl

  collapse-shown :
      (text : List ℕ) (now : ℕ)
      → same_text c.last_key (collapse_key c.ignore_regex text) ≡ true
      → ltb (add64 c.repeat_count 1) c.limit ≡ false
      → collapse c text now ≡ ((true, add64 c.repeat_count 1), record c { repeat_count = 0 })
  unfolding collapse
  collapse-shown text now same full =
      let on : (c.limit == 0) ≡ false = ground arith in rw (counts, on, same, full) refl

pub collapse_each-Counted :
    (ms : List (List ℕ × ℕ)) (c : CollapseContextCache)
    → c.mode ≡ count
    → 0 < c.limit
    → c.limit < u64_mod
    → c.repeat_count < c.limit
    → AreRepeats c c.last_key ms
    → Counted c.limit c.repeat_count
        (length ms)
        (collapse_each c ms).0
        (collapse_each c ms).1.repeat_count
unfolding collapse_each
collapse_each-Counted [] c counts positive small below same = record {
  total = omega arith;
  below = below;
  each = tt;
}
collapse_each-Counted ((text, now) ∷ later) c counts positive small below same =
    elim (Bool-cases (ltb (add64 c.repeat_count 1) c.limit)) [
      | inl less ↦
          let step = collapse-held c counts positive small below text now same.0 less in
          let rest =
            collapse_each-Counted later (record c { repeat_count = add64 c.repeat_count 1 }) counts
              positive small (ground arith) same.1 in
          rw step (record {
            total = omega (arith, rest.total, small, below);
            below = rest.below;
            each = (inl refl, rest.each);
          })
      | inr full ↦
          let step = collapse-shown c counts positive small below text now same.0 full in
          let rest =
            collapse_each-Counted later (record c { repeat_count = 0 }) counts positive small
              positive same.1 in
          let whole : add64 c.repeat_count 1 ≡ c.limit = ground arith in
          rw step (record {
            total = omega (arith, rest.total, whole);
            below = rest.below;
            each = (inr (ap (λ n. (true, n)) whole), rest.each);
          })
    ]

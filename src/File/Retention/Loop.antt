-- ===== src/File/Retention/Loop.antt =====
-- Deleting the oldest files until what is left is within a limit.
use logme.Prelude.{
  ℕ, zero, suc, ◌+◌, ◌-◌, ◌≤◌, ◌<◌, ◌≡◌, refl, sym, ap, ◌∙◌, subst, Bool, true, false, ◌==◌, ltb,
  leb, if◌then◌else◌, List, [], ◌∷◌, set, sub64, u64_mod, All, ◌⊎◌, inl, inr, Bool-cases, by_test,
  arith,
}
use logme.Text.Replace.{same_text}
use logme.File.Retention.{FileInfo, file_at, delete_file, max_files_loop, total_size_loop}
use logme.File.Retention.Shrinking.{marked, Shrinks, Shrinks-refl, Shrinks-trans, delete_at}
use logme.File.Retention.Sums.{Apart, Distinct, there, weigh, Live}
use logme.File.Retention.Settled.{Done, Done-at}

set_same : (fs : List FileInfo) (i : ℕ) (g : FileInfo) → Live fs i → file_at (set fs i g) i ≡ g
set_same [] i g h = absurd (ground arith)
set_same (f ∷ fs) zero g h = refl
set_same (f ∷ fs) (suc i) g h = set_same fs i g h

set_other :
    (fs : List FileInfo) (i j : ℕ) (g : FileInfo)
    → (i == j) ≡ false
    → file_at (set fs i g) j ≡ file_at fs j
set_other [] i j g h = refl
set_other (f ∷ fs) zero zero g h = absurd (ground arith)
set_other (f ∷ fs) zero (suc j) g h = refl
set_other (f ∷ fs) (suc i) zero g h = refl
set_other (f ∷ fs) (suc i) (suc j) g h = set_other fs i j g (ground arith)

Live-others :
    (fs : List FileInfo) (i : ℕ) (g : FileInfo) (is : List ℕ)
    → Apart i is
    → All (Live fs) is
    → All (Live (set fs i g)) is
Live-others fs i g [] a l = tt
Live-others fs i g (j ∷ is) a l = (
  subst (λ f. f.deleted ≡ false) (sym (set_other fs i j g a.0)) l.0,
  Live-others fs i g is a.1 l.1,
)

module _ (w : FileInfo → ℕ) where
  weigh-set :
      (fs : List FileInfo) (i : ℕ) (g : FileInfo)
      → Live fs i
      → weigh w (set fs i g) + w (file_at fs i) ≡ weigh w fs + there w g
  weigh-set [] i g h = absurd (ground arith)
  weigh-set (f ∷ fs) zero g h = ground arith
  weigh-set (f ∷ fs) (suc i) g h = omega (arith, weigh-set fs i g h)

-- Both loops, for the weight that the limit counts.
module _ (can_remove : List ℕ → Bool) (keep : List ℕ) (w : FileInfo → ℕ) where
  pub shrink_loop : (limit : ℕ) → List ℕ → ℕ → List FileInfo → List FileInfo
  unfolding delete_file
  shrink_loop limit [] n fs = fs
  shrink_loop limit (i ∷ is) n fs =
      let (done, f) = delete_file can_remove keep (file_at fs i) in
      let rest = shrink_loop limit is (if done then n - w (file_at fs i) else n) (set fs i f) in
      if leb n limit then fs else rest

  pub shrink_loop-Shrinks :
      (limit : ℕ) (is : List ℕ) (n : ℕ) (fs : List FileInfo)
      → Shrinks keep fs (shrink_loop limit is n fs)
  unfolding shrink_loop
  shrink_loop-Shrinks limit [] n fs = Shrinks-refl keep fs
  shrink_loop-Shrinks limit (i ∷ is) n fs =
      by_test (Shrinks keep fs) (leb n limit) (λ _. Shrinks-refl keep fs)
        λ _.
          Shrinks-trans keep fs _ _ (delete_at keep can_remove fs i)
            (shrink_loop-Shrinks limit is _ _)

  module _ (removes : (name : List ℕ) → can_remove name ≡ true) where
    -- A file that existed is then deleted or kept, and what is left weighs no more than is counted.
    record Deleted (n : ℕ) (fs : List FileInfo) (i : ℕ) (r : Bool × FileInfo) : Type 0 where
      is_done : Done keep r.1
      weight : weigh w (set fs i r.1) ≤ (if r.0 then n - w (file_at fs i) else n)

    delete-Live :
        (n : ℕ) (fs : List FileInfo) (i : ℕ)
        → Live fs i
        → weigh w fs ≤ n
        → Deleted n fs i (delete_file can_remove keep (file_at fs i))
    unfolding delete_file
    delete-Live n fs i l h =
        let f = file_at fs i in
        by_test (Deleted n fs i) f.deleted (λ gone. absurd (cc))
          λ _.
            by_test (Deleted n fs i) (same_text f.path_name keep)
              (λ same. record {
                is_done = ground arith;
                weight = ground (arith, weigh-set w fs i f l);
              })
              λ other.
                by_test (Deleted n fs i) (can_remove f.path_name)
                  (λ _. record {
                    is_done = refl;
                    weight = omega (arith, weigh-set w fs i (marked f) l);
                  })
                  λ refused. absurd (cc (removes f.path_name))

    -- Within the limit, or all of these files deleted or kept.
    abbrev pub Outcome : ℕ → List ℕ → List FileInfo → Type 0
    Outcome limit is r = (weigh w r ≤ limit) ⊎ All (λ i. Done keep (file_at r i)) is

    pub shrink_loop-Done :
        (limit : ℕ) (is : List ℕ) (n : ℕ) (fs : List FileInfo)
        → Distinct is
        → All (Live fs) is
        → weigh w fs ≤ n
        → Outcome limit is (shrink_loop limit is n fs)
    unfolding shrink_loop
    shrink_loop-Done limit [] n fs d l h = inr tt
    shrink_loop-Done limit (i ∷ is) n fs d l h =
        by_test (Outcome limit (i ∷ is)) (leb n limit) (λ enough. inl (ground arith))
          λ _.
            let r = delete_file can_remove keep (file_at fs i) in
            let one = delete-Live n fs i l.0 h in
            let n' = if r.0 then n - w (file_at fs i) else n in
            let rest =
              shrink_loop-Done limit is n' (set fs i r.1) d.1 (Live-others fs i r.1 is d.0 l.1)
                one.weight in
            elim rest [
              | inl k ↦ inl k
              | inr k ↦ inr (
                Done-at keep (set fs i r.1) _ i (shrink_loop-Shrinks limit is n' (set fs i r.1))
                    (subst (Done keep) (sym (set_same fs i r.1 l.0)) one.is_done),
                k,
              )
            ]

  -- The two loops of the source.
  pub max_files_loop-shrink_loop :
      ((f : FileInfo) → w f ≡ 1)
      → (limit : ℕ) (is : List ℕ) (n : ℕ) (fs : List FileInfo) → n < u64_mod
      → max_files_loop can_remove keep limit is n fs ≡ shrink_loop limit is n fs
  unfolding max_files_loop shrink_loop
  max_files_loop-shrink_loop e limit [] n fs h = refl
  max_files_loop-shrink_loop e limit (i ∷ is) n fs h =
      let r = delete_file can_remove keep (file_at fs i) in
      elim (Bool-cases (leb n limit)) [
        | inl enough ↦ rw enough refl
        | inr more ↦
            let same : (if r.0 then sub64 n 1 else n) ≡ (if r.0 then n - w (file_at fs i) else n) =
              ground (arith, e (file_at fs i)) in
            rw more (
              max_files_loop-shrink_loop e limit is _ (set fs i r.1) (ground arith)
              ∙ ap (λ m. shrink_loop limit is m (set fs i r.1)) same)
      ]

  pub total_size_loop-shrink_loop :
      ((f : FileInfo) → w f ≡ f.size)
      → (limit : ℕ) (is : List ℕ) (n : ℕ) (fs : List FileInfo)
      → total_size_loop can_remove keep limit is n fs ≡ shrink_loop limit is n fs
  unfolding total_size_loop shrink_loop
  total_size_loop-shrink_loop e limit [] n fs = refl
  total_size_loop-shrink_loop e limit (i ∷ is) n fs =
      let r = delete_file can_remove keep (file_at fs i) in
      let size = (file_at fs i).size in
      let same : (if r.0 then (if ltb n size then 0 else n - size) else n)
          ≡ (if r.0 then n - w (file_at fs i) else n) =
        ground (arith, e (file_at fs i)) in
      elim (Bool-cases (leb n limit)) [
        | inl enough ↦ rw enough refl
        | inr more ↦ rw more (
            total_size_loop-shrink_loop e limit is _ (set fs i r.1)
            ∙ ap (λ m. shrink_loop limit is m (set fs i r.1)) same)
      ]

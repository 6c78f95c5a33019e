-- ===== src/Channel/Visits.antt =====
-- How many channels a thread is not displaying on.
use logme.Prelude.{
  ℕ, zero, suc, ◌+◌, ◌≤◌, ◌<◌, ◌≡◌, sym, ap, ◌∙◌, ◌==◌, false, List, [], ◌∷◌, ◌++◌, if◌then◌else◌,
  Bool-cases, inl, inr, arith,
}
use logme.Channel.Reentry.{contains}
use logme.Channel.Distinct.{contains-snoc, same_number}

-- The numbers below `n` that are not in a list.
abbrev pub unvisited : ℕ → List ℕ → ℕ
unvisited zero s = 0
unvisited (suc n) s = (if contains n s then 0 else 1) + unvisited n s

unvisited-snoc : (n ch : ℕ) (s : List ℕ) → unvisited n (s ++ ch ∷ []) ≤ unvisited n s
unvisited-snoc zero ch s = omega arith
unvisited-snoc (suc n) ch s = ground (arith, contains-snoc n ch s, unvisited-snoc n ch s)

pub unvisited_less :
    (n ch : ℕ) (s : List ℕ)
    → ch < n
    → contains ch s ≡ false
    → unvisited n (s ++ ch ∷ []) < unvisited n s
unvisited_less zero ch s h k = absurd (omega arith)
unvisited_less (suc n) ch s h k = elim (Bool-cases (ch == n)) [
  | inl last ↦
      let fresh : contains n s ≡ false = ap (λ c. contains c s) (sym (same_number ch n last)) ∙ k in
      ground (arith, contains-snoc n ch s, unvisited-snoc n ch s)
  | inr other ↦ ground (arith, contains-snoc n ch s, unvisited_less n ch s (ground arith) k)
]

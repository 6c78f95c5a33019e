-- ===== src/Format/Fast/Refusal.antt =====
-- A format that is not printed fast has no kind.
use logme.Prelude.{
  ℕ, ◌+◌, ◌≡◌, refl, sym, ap, ◌∙◌, true, false, not, ◌||◌, ◌==◌, leb, List, [], ◌∷◌, length,
  Bool-cases, inl, inr, arith,
}
use logme.Format.Fast.{
  FastFormatEntry, no_kind, kind_of, is_kind, noted, scan, empty_entry, build_fast_format, finish,
  fast_format_scan_limit,
}
use logme.Format.Fast.Interpretation.{scan_skips, scan_refuses, scan_notes}

pub scan-rejected :
    (s : List ℕ) (i : ℕ) (e : FastFormatEntry)
    → (scan s i e).0 ≡ false
    → (scan s i e).1.kind1 ≡ no_kind
unfolding scan
scan-rejected [] i e h = absurd (cc)
scan-rejected (c ∷ []) i e h = elim (Bool-cases (c == b'%')) [
  | inl percent ↦ rw percent refl
  | inr other ↦ absurd (ground arith)
]
scan-rejected (c ∷ d ∷ s) i e h = elim (Bool-cases (c == b'%')) [
  | inr other ↦
      let step = scan_skips c d s i e other in
      ap (λ r. r.1.kind1) step ∙ scan-rejected (d ∷ s) (i + 1) e (sym (ap (λ r. r.0) step) ∙ h)
  | inl percent ↦ elim (Bool-cases (not (is_kind (kind_of d)) || leb 2 e.spec_count)) [
    | inl refused ↦ ap (λ r. r.1.kind1) (scan_refuses c d s i e percent refused)
    | inr accepted ↦
        let step = scan_notes c d s i e percent accepted in
        ap (λ r. r.1.kind1) step
        ∙ scan-rejected s (i + 2) (noted (kind_of d) i e) (sym (ap (λ r. r.0) step) ∙ h)
  ]
]

module _ (f : List ℕ) where
  pub build-too_long_entry :
      leb fast_format_scan_limit (length f) ≡ true → build_fast_format f ≡ empty_entry f
  unfolding build_fast_format
  build-too_long_entry h = rw h refl

  pub build-rejected_entry :
      leb fast_format_scan_limit (length f) ≡ false
      → (scan f 0 (empty_entry f)).0 ≡ false
      → build_fast_format f ≡ (scan f 0 (empty_entry f)).1
  unfolding build_fast_format
  build-rejected_entry short h = rw (short, h) refl

  pub build-too_long :
      leb fast_format_scan_limit (length f) ≡ true → (build_fast_format f).kind1 ≡ no_kind
  build-too_long h = ap (λ e. e.kind1) (build-too_long_entry h)

  pub build-rejected :
      leb fast_format_scan_limit (length f) ≡ false
      → (scan f 0 (empty_entry f)).0 ≡ false
      → (build_fast_format f).kind1 ≡ no_kind
  build-rejected short h =
      ap (λ e. e.kind1) (build-rejected_entry short h) ∙ scan-rejected f 0 (empty_entry f) h

  pub build-finish :
      leb fast_format_scan_limit (length f) ≡ false
      → (scan f 0 (empty_entry f)).0 ≡ true
      → build_fast_format f ≡ finish (scan f 0 (empty_entry f)).1
  unfolding build_fast_format
  build-finish short h = rw (short, h) refl

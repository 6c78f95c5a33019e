-- ===== src/Config/Strip.antt =====
-- The suffix that is found behind the digits of a number.
use mathlib.Core.List.{reverse, reverse-reverse}
use logme.Prelude.{
  ℕ, ◌≡◌, refl, sym, ◌∙◌, false, some, List, ◌∷◌, ◌++◌, length, take-append, append_assoc, arith,
}
use logme.Text.Trim.{trim_spaces, codes, IsDigit, is_digit}
use logme.Text.Search.{ends_with, ends_with-append, starts_with, rfind, rfind-append}
use logme.Config.SmartValue.{strip_suffix, prefix_to}
use logme.Config.Units.{byte_size_suffixes, interval_suffixes}

-- The digits of a number, as the search for a suffix and the trimming see them.
pub record Number (ds : List ℕ) : Type 0 where
  pub last : ℕ
  pub front : List ℕ
  pub backwards : reverse ds ≡ last ∷ front
  pub digit : IsDigit last
  pub trimmed : trim_spaces ds ≡ ds

module _ (ds : List ℕ) (h : Number ds) where
  stripped :
      (t : List ℕ) → rfind t t ≡ some 0 → trim_spaces (prefix_to (ds ++ t) (rfind (ds ++ t) t)) ≡ ds
  stripped t e = rw (rfind-append ds t e, take-append ds t (length ds) refl) h.trimmed

  pub strip_gb : strip_suffix (ds ++ codes "gb") byte_size_suffixes ≡ (ds, 1_073_741_824)
  unfolding strip_suffix byte_size_suffixes starts_with rfind
  strip_gb = simp (ends_with-append, h.backwards) (rw (stripped (codes "gb") refl))

  pub strip_mb : strip_suffix (ds ++ codes "mb") byte_size_suffixes ≡ (ds, 1_048_576)
  unfolding strip_suffix byte_size_suffixes starts_with rfind
  strip_mb = simp (ends_with-append, h.backwards) (rw (stripped (codes "mb") refl))

  pub strip_kb : strip_suffix (ds ++ codes "kb") byte_size_suffixes ≡ (ds, 1024)
  unfolding strip_suffix byte_size_suffixes starts_with rfind
  strip_kb = simp (ends_with-append, h.backwards) (rw (stripped (codes "kb") refl))

  pub strip_b : strip_suffix (ds ++ codes "b") byte_size_suffixes ≡ (ds, 1)
  unfolding strip_suffix byte_size_suffixes starts_with rfind
  strip_b =
      simp (ends_with-append, h.backwards) (ground (arith, h.digit, stripped (codes "b") refl))

  pub strip_w : strip_suffix (ds ++ codes "w") interval_suffixes ≡ (ds, 604_800_000)
  unfolding strip_suffix interval_suffixes starts_with rfind
  strip_w =
      simp (ends_with-append, h.backwards) (ground (arith, h.digit, stripped (codes "w") refl))

  pub strip_d : strip_suffix (ds ++ codes "d") interval_suffixes ≡ (ds, 86_400_000)
  unfolding strip_suffix interval_suffixes starts_with rfind
  strip_d =
      simp (ends_with-append, h.backwards) (ground (arith, h.digit, stripped (codes "d") refl))

  pub strip_h : strip_suffix (ds ++ codes "h") interval_suffixes ≡ (ds, 3_600_000)
  unfolding strip_suffix interval_suffixes starts_with rfind
  strip_h =
      simp (ends_with-append, h.backwards) (ground (arith, h.digit, stripped (codes "h") refl))

  pub strip_min : strip_suffix (ds ++ codes "min") interval_suffixes ≡ (ds, 60_000)
  unfolding strip_suffix interval_suffixes starts_with rfind
  strip_min =
      simp (ends_with-append, h.backwards) (ground (arith, h.digit, stripped (codes "min") refl))

  miss :
      (a x : ℕ) (xs : List ℕ)
      → is_digit x ≡ false
      → starts_with (a ∷ h.last ∷ h.front) (a ∷ x ∷ xs) ≡ false
  unfolding starts_with
  miss a x xs k = ground (arith, h.digit)

  ends_with_s :
      (x : ℕ) (xs : List ℕ)
      → is_digit x ≡ false
      → ends_with (ds ++ codes "s") (reverse (115 ∷ x ∷ xs)) ≡ false
  ends_with_s x xs k =
      ends_with-append ds (codes "s") (reverse (115 ∷ x ∷ xs))
      ∙ rw (h.backwards, reverse-reverse (115 ∷ x ∷ xs)) (miss 115 x xs k)

  pub strip_s : strip_suffix (ds ++ codes "s") interval_suffixes ≡ (ds, 1000)
  unfolding strip_suffix interval_suffixes rfind
  strip_s =
      rw
        (
          ends_with_s 107 (codes "eew") refl,
          ends_with_s 121 (codes "ad") refl,
          ends_with_s 114 (codes "uoh") refl,
          ends_with_s 101 (codes "tunim") refl,
          ends_with_s 100 (codes "noces") refl,
        )
        (simp (ends_with-append, h.backwards)
          (unfold starts_with in rw (stripped (codes "s") refl)))

  -- The suffix "s" stands before "ms" in the table.
  pub strip_ms :
      strip_suffix (ds ++ codes "ms") interval_suffixes ≡ (trim_spaces (ds ++ codes "m"), 1000)
  unfolding strip_suffix interval_suffixes starts_with rfind
  strip_ms = simp (ends_with-append, h.backwards) (ground (arith, h.digit, taken))
    where
      taken : prefix_to (ds ++ codes "ms") (rfind (ds ++ codes "ms") (codes "s")) ≡ ds ++ codes "m"
      taken = rw (sym (append_assoc ds (codes "m") (codes "s"))) (
          rw (rfind-append (ds ++ codes "m") (codes "s") refl)
            (take-append (ds ++ codes "m") (codes "s") (length (ds ++ codes "m")) refl))

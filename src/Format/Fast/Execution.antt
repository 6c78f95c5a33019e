-- ===== src/Format/Fast/Execution.antt =====
-- A built entry, executed: what `Context` relies on when it does not call `vsnprintf`.
use mathlib.Core.Option
use logme.Prelude.{
  ℕ, ◌-◌, ◌≡◌, ◌<◌, ap, ◌∙◌, true, false, leb, List, length, take, Bool-cases, inl, inr,
}
use logme.Format.Fast.{
  FastFormatEntry, Argument, no_kind, scan, empty_entry, build_fast_format, execute_fast_format,
  fast_format_scan_limit,
}
use logme.Format.Fast.Interpretation.{interpreted}
use logme.Format.Fast.Printf.{zero_pointer, printf}
use logme.Format.Fast.Letters.{interpreted-printf}
use logme.Format.Fast.Copying.{whole_text, execute-cut}
use logme.Format.Fast.Refusal.{build-too_long, build-rejected, build-finish}
use logme.Format.Fast.Equivalence.{finish-interpreted}

pub accepted-interpreted :
    (f : List ℕ) (args : List Argument)
    → leb fast_format_scan_limit (length f) ≡ false
    → (scan f 0 (empty_entry f)).0 ≡ true
    → whole_text (build_fast_format f) args ≡ interpreted f args
accepted-interpreted f args short accepted =
    let e : FastFormatEntry = (scan f 0 (empty_entry f)).1 in
    ap (λ x. whole_text x args) (build-finish f short accepted)
    ∙ finish-interpreted f args e (ap (λ b. (b, e)) accepted)

whole_text-interpreted :
    (f : List ℕ) (args : List Argument)
    → ¬ ((build_fast_format f).kind1 ≡ no_kind)
    → whole_text (build_fast_format f) args ≡ interpreted f args
whole_text-interpreted f args fast = elim (Bool-cases (leb fast_format_scan_limit (length f))) [
  | inl long ↦ absurd (fast (build-too_long f long))
  | inr short ↦ elim (Bool-cases (scan f 0 (empty_entry f)).0) [
    | inr refused ↦ absurd (fast (build-rejected f short refused))
    | inl accepted ↦ accepted-interpreted f args short accepted
  ]
]

-- For a format that is not refused, and a buffer of `n` bytes, at least one: the fast way writes the
-- text that `printf` prints, with 0x0 for a null pointer, cut to `n - 1` bytes, and it fails only
-- where `printf` is undefined.
pub execute-printf :
    (f : List ℕ) (args : List Argument) (n : ℕ)
    → ¬ ((build_fast_format f).kind1 ≡ no_kind)
    → 0 < n
    → execute_fast_format (build_fast_format f) n args
      ≡ Option.map (take (n - 1)) (printf zero_pointer f args)
execute-printf f args n fast pos =
    execute-cut (build_fast_format f) n pos args
    ∙ ap (Option.map (take (n - 1)))
        (whole_text-interpreted f args fast ∙ interpreted-printf f args)

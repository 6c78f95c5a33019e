-- ===== src/Format/Fast/Hints.antt =====
-- A buffer of the size that an entry hints at is large enough.
use mathlib.Core.Option
use logme.Prelude.{
  ℕ, ◌+◌, ◌-◌, ◌≤◌, ◌<◌, ◌≡◌, refl, sym, ap, ◌∙◌, subst, true, false, ◌&&◌, ◌||◌, ◌==◌, ltb, leb,
  if◌then◌else◌, Option, none, some, List, length, take, length-take, take_all, Bool-cases, inl,
  inr, All, by_test, ◌⊎◌, arith,
}
use logme.Format.Fast.{
  literal, FastFormatEntry, Argument, empty_entry, scan, finish, max_arg_text_size,
  align_buffer_size_hint, build_fast_format, execute_fast_format, fast_format_scan_limit,
}
use logme.Format.Fast.Interpretation.{interpreted}
use logme.Format.Fast.Printf.{zero_pointer, printf}
use logme.Format.Fast.Letters.{interpreted-printf}
use logme.Format.Fast.Copying.{whole_text, execute-cut}
use logme.Format.Fast.Lengths.{InRange, Fits}
use logme.Format.Fast.Sizes.{Within, scan-Within, align-≤, sized-bound, Fits-≤, sized-Fits}
use logme.Format.Fast.Refusal.{build-too_long_entry, build-rejected_entry, build-finish}
use logme.Format.Fast.Execution.{accepted-interpreted}

-- The text of a finished entry leaves two bytes of its hint.
module _ (f : List ℕ) (args : List Argument) (short : length f < 48) (h : All InRange args) where
  abbrev HintFits : FastFormatEntry → Type 0
  HintFits e = 0 < e.buffer_size_hint → Fits (e.buffer_size_hint - 2) (whole_text e args)

  literal-HintFits :
      (e : FastFormatEntry)
      → e.format ≡ f
      → HintFits (record e {
        kind1 = literal;
        part0_len = length e.format;
        buffer_size_hint = align_buffer_size_hint (length e.format + 2);
      })
  unfolding whole_text
  literal-HintFits e same p = omega (
    arith,
    ap length same,
    length-take (length e.format) e.format,
    align-≤ (length e.format + 2) (omega (arith, ap length same)),
  )

  -- An entry with conversions, whose parts and bounds are known.
  sized-HintFits :
      (x : FastFormatEntry) (m2 : ℕ)
      → 0 < max_arg_text_size x.kind1
      → (x.spec_count ≡ 1) ⊎ ((0 < max_arg_text_size x.kind2) × (max_arg_text_size x.kind2 ≡ m2))
      → x.part0_len + x.part1_len + x.part2_len + max_arg_text_size x.kind1 + m2 + 2
        ≤ x.buffer_size_hint
      → HintFits x
  sized-HintFits x m2 p k room positive =
      Fits-≤ (x.part0_len + max_arg_text_size x.kind1 + x.part1_len + m2 + x.part2_len) _ _
        (omega arith) (sized-Fits x args m2 p k h)

  module _ (e : FastFormatEntry) (w : Within (length f) f e) where
    second_max : ℕ
    second_max = if e.spec_count == 2 then max_arg_text_size e.kind2 else 0

    second_max-bound : second_max ≤ 18
    unfolding second_max
    second_max-bound =
        by_test (λ (m : ℕ). m ≤ 18) (e.spec_count == 2) (λ two. sized-bound e.kind2)
          (λ other. omega arith)

    two_sized :
        (e.spec_count == 0) ≡ false
        → (e.spec_count == 1) ≡ false
        → (ltb e.spec_count 2 || ltb 0 second_max) ≡ true
        → (0 < max_arg_text_size e.kind2) × (max_arg_text_size e.kind2 ≡ second_max)
    unfolding second_max
    two_sized found more sized = elim (Bool-cases (e.spec_count == 2)) [
      | inl two ↦ rw two (ground arith, refl)
      | inr other ↦ absurd (ground arith)
    ]

    room :
        (part1_len part2_len : ℕ)
        → part1_len ≤ length f
        → part2_len ≤ length f
        → e.part0_len + part1_len + part2_len + max_arg_text_size e.kind1 + second_max + 2
          ≤ align_buffer_size_hint
              (e.part0_len + part1_len + part2_len + max_arg_text_size e.kind1 + second_max + 2)
    room part1_len part2_len p q =
        align-≤ _ (omega (arith, w.first, sized-bound e.kind1, second_max-bound))

    finish-HintFits : HintFits (finish e)
    unfolding finish second_max
    finish-HintFits =
        by_test HintFits (e.spec_count == 0) (λ none_found. literal-HintFits e w.format)
          λ found. elim (Bool-cases (e.spec_count == 1)) [
            | inl single ↦ rw single (
                by_test HintFits
                  (ltb 0 (max_arg_text_size e.kind1) && (ltb e.spec_count 2 || ltb 0 second_max))
                  (λ sized. sized-HintFits _ second_max (ground arith) (inl (ground arith)) (
                    room (length e.format - e.part1_pos) e.part2_len
                      (omega (arith, ap length w.format)) (omega (arith, w.third))))
                  λ unsized. λ positive. absurd (omega (arith, w.hint)))
            | inr more ↦ rw more (
                by_test HintFits
                  (ltb 0 (max_arg_text_size e.kind1) && (ltb e.spec_count 2 || ltb 0 second_max))
                  (λ sized.
                    sized-HintFits _ second_max (ground arith)
                      (inr (two_sized found more (ground arith)))
                      (room e.part1_len (length e.format - e.part2_pos) w.second
                        (omega (arith, ap length w.format))))
                  λ unsized. λ positive. absurd (omega (arith, w.hint)))
          ]

start-Within : (f : List ℕ) → Within (length f) f (empty_entry f)
start-Within f = record {
  format = refl;
  hint = refl;
  first = omega arith;
  second = omega arith;
  third = refl;
}

build-Printed :
    (f : List ℕ) (args : List Argument)
    → 0 < (build_fast_format f).buffer_size_hint
    → All InRange args
    → Fits ((build_fast_format f).buffer_size_hint - 2) (interpreted f args)
      × (whole_text (build_fast_format f) args ≡ interpreted f args)
build-Printed f args positive h =
    let e : FastFormatEntry = (scan f 0 (empty_entry f)).1 in
    let within : Within (length f) f e =
      scan-Within (length f) f f 0 (empty_entry f) (omega arith) (start-Within f) in
    elim (Bool-cases (leb fast_format_scan_limit (length f))) [
      | inl long ↦
          absurd (omega (arith, ap (λ x. x.buffer_size_hint) (build-too_long_entry f long)))
      | inr short ↦ elim (Bool-cases (scan f 0 (empty_entry f)).0) [
        | inr refused ↦ absurd (
            omega (
              arith,
              within.hint,
              ap (λ x. x.buffer_size_hint) (build-rejected_entry f short refused),
            ))
        | inl accepted ↦
            let same = accepted-interpreted f args short accepted in
            let built = build-finish f short accepted in
            (
              subst (Fits _) same (
                  subst (HintFits f args (ground arith) h) (sym built)
                    (finish-HintFits f args (ground arith) h e within) positive),
              same,
            )
      ]
    ]

fitting : (m n : ℕ) (o : Option (List ℕ)) → m ≤ n → Fits m o → Option.map (take n) o ≡ o
fitting m n none h g = refl
fitting m n (some t) h g = ap some (take_all t n (omega arith))

-- For a format that gets a hint, arguments in the range of their types, and a buffer of at least one
-- byte that is at most one byte smaller than the hint: the fast way writes all that `printf` prints, with 0x0 for
-- a null pointer.
pub execute-printf_whole :
    (f : List ℕ) (args : List Argument) (n : ℕ)
    → 0 < (build_fast_format f).buffer_size_hint
    → (build_fast_format f).buffer_size_hint ≤ n + 1
    → 0 < n
    → All InRange args
    → execute_fast_format (build_fast_format f) n args ≡ printf zero_pointer f args
execute-printf_whole f args n positive large pos h =
    let (fits, same) = build-Printed f args positive h in
    execute-cut (build_fast_format f) n pos args
    ∙ ap (Option.map (take (n - 1))) same
    ∙ fitting _ (n - 1) (interpreted f args) (omega arith) fits
    ∙ interpreted-printf f args

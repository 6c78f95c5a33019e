-- ===== src/Format/Fast/Equivalence.antt =====
-- The entry of an accepted format describes what is printed conversion after conversion.
use mathlib.Core.Option
use logme.Prelude.{
  ℕ, ◌+◌, ◌-◌, ◌≡◌, refl, sym, ap, ◌∙◌, subst, true, ◌&&◌, ltb, Option, none, some, List, [], ◌∷◌,
  ◌++◌, length, take, drop, take-append, drop-append, length-drop, take_all, length-append,
  append_assoc, by_test, arith,
}
use logme.Format.Fast.{
  FastFormatKind, no_kind, literal, format_s, format_d, format_i, format_u, format_p,
  FastFormatEntry, Argument, kind_of, is_kind, noted, empty_entry, scan, finish, next_text, by_kind,
  part0, part1, part2, max_arg_text_size,
}
use logme.Format.Fast.Interpretation.{converted, interpreted, nowhere, somewhere, scan-Found}
use logme.Format.Fast.Copying.{whole_first, whole_second, whole_text}

pub by_kind-is_kind :
    {A : Type 0} (k : FastFormatKind) (a b : A) (f : FastFormatKind → A)
    → is_kind k ≡ true
    → by_kind k a b f ≡ f k
by_kind-is_kind no_kind a b f h = absurd (cc)
by_kind-is_kind literal a b f h = absurd (cc)
by_kind-is_kind format_s a b f h = refl
by_kind-is_kind format_d a b f h = refl
by_kind-is_kind format_i a b f h = refl
by_kind-is_kind format_u a b f h = refl
by_kind-is_kind format_p a b f h = refl

-- A text behind another one and two bytes.
drop_two :
    (u : List ℕ) (x d : ℕ) (rest : List ℕ) (k : ℕ)
    → k ≡ length u + 2
    → drop k (u ++ x ∷ d ∷ rest) ≡ rest
drop_two u x d rest k e =
    ap (drop k) (sym (append_assoc u (x ∷ d ∷ []) rest))
    ∙ drop-append (u ++ x ∷ d ∷ []) rest k (omega (arith, length-append u (x ∷ d ∷ [])))

-- The text with one conversion, and with two.
module _ (e : FastFormatEntry) (w : List ℕ) (rest : List ℕ) where
  one_conversion :
      (r : Option (List ℕ × List Argument))
      → e.spec_count ≡ 1
      → part1 e ≡ rest
      → ((args : List Argument) → interpreted rest args ≡ some rest)
      → whole_first e w r ≡ Option.map (◌++◌ w) (converted r (interpreted rest))
  one_conversion none c p h = refl
  one_conversion (some (t, others)) c p h = rw (c, p, h others) (ap some (append_assoc w t rest))

  second_conversion :
      (r : Option (List ℕ × List Argument)) (v : List ℕ)
      → part2 e ≡ rest
      → ((args : List Argument) → interpreted rest args ≡ some rest)
      → whole_second e v r ≡ Option.map (◌++◌ v) (converted r (interpreted rest))
  second_conversion none v p h = refl
  second_conversion (some (t, others)) v p h = rw (p, h others) (ap some (append_assoc v t rest))

map-append_assoc :
    (w t u : List ℕ) (o : Option (List ℕ))
    → Option.map (◌++◌ ((w ++ t) ++ u)) o
      ≡ Option.map (◌++◌ w) (Option.map (◌++◌ t) (Option.map (◌++◌ u) o))
map-append_assoc w t u none = refl
map-append_assoc w t u (some x) = ap some (append_assoc (w ++ t) u x ∙ append_assoc w t (u ++ x))

two_conversions :
    (e : FastFormatEntry) (w u rest s2 : List ℕ) (r : Option (List ℕ × List Argument))
    → e.spec_count ≡ 2
    → part1 e ≡ u
    → part2 e ≡ rest
    → ((args : List Argument) → interpreted rest args ≡ some rest)
    → ((args : List Argument)
        → interpreted s2 args
          ≡ Option.map (◌++◌ u) (converted (next_text e.kind2 args) (interpreted rest)))
    → whole_first e w r ≡ Option.map (◌++◌ w) (converted r (interpreted s2))
two_conversions e w u rest s2 none c p q h k = refl
two_conversions e w u rest s2 (some (t, others)) c p q h k =
    rw (c, p, k others)
      (second_conversion e w rest (next_text e.kind2 others) ((w ++ t) ++ u) q h
        ∙ map-append_assoc w t u (converted (next_text e.kind2 others) (interpreted rest)))

-- The rest of a text from a place on, measured.
rest_of : (f rest : List ℕ) (k : ℕ) → drop k f ≡ rest → take (length f - k) (drop k f) ≡ rest
rest_of f rest k e =
    ap (take (length f - k)) e
    ∙ take_all rest (length f - k) (omega (arith, ap length e, length-drop k f))

module _ (f : List ℕ) (args : List Argument) where
  abbrev SameText : FastFormatEntry → Type 0
  SameText e = whole_text e args ≡ interpreted f args

  no_conversion :
      ((args : List Argument) → interpreted f args ≡ some f) → SameText (finish (empty_entry f))
  unfolding finish whole_text
  no_conversion h = ap some (take_all f (length f) (omega arith)) ∙ sym (h args)

  module _ (u s : List ℕ) (d : ℕ) (split : f ≡ u ++ b'%' ∷ d ∷ s)
      (kind : is_kind (kind_of d) ≡ true) where
    abbrev e1 : FastFormatEntry
    e1 = noted (kind_of d) (0 + length u) (empty_entry f)

    first_part : take (0 + length u) f ≡ u
    first_part =
        ap (take (0 + length u)) split ∙ take-append u (b'%' ∷ d ∷ s) (0 + length u) (omega arith)

    behind_first : drop (0 + length u + 2) f ≡ s
    behind_first =
        ap (drop (0 + length u + 2)) split ∙ drop_two u b'%' d s (0 + length u + 2) (omega arith)

    -- The entry of a format with one conversion.
    abbrev single : ℕ → FastFormatEntry
    single hint = record e1 { part1_len = length f - (0 + length u + 2); buffer_size_hint = hint }

    module _
        (k : (args : List Argument)
          → interpreted f args
            ≡ Option.map (◌++◌ u) (converted (next_text (kind_of d) args) (interpreted s))) where
      single-SameText :
          ((args : List Argument) → interpreted s args ≡ some s)
          → (hint : ℕ) → SameText (single hint)
      unfolding whole_text
      single-SameText h hint =
          by_kind-is_kind (kind_of d) none (some (part0 (single hint))) _ kind
          ∙ one_conversion (single hint) (part0 (single hint)) s (next_text (kind_of d) args) refl
              (rest_of f s (0 + length u + 2) behind_first) h
          ∙ ap (λ w. Option.map (◌++◌ w) (converted (next_text (kind_of d) args) (interpreted s)))
              first_part
          ∙ sym (k args)

      after_one : ((args : List Argument) → interpreted s args ≡ some s) → SameText (finish e1)
      unfolding finish
      after_one h =
          by_test SameText (ltb 0 (max_arg_text_size (kind_of d)) && true)
            (λ sized. single-SameText h _) λ unsized. single-SameText h 0

      module _ (u2 rest : List ℕ) (d2 : ℕ) (split2 : s ≡ u2 ++ b'%' ∷ d2 ∷ rest) where
        abbrev e2 : FastFormatEntry
        e2 = noted (kind_of d2) (0 + length u + 2 + length u2) e1

        abbrev double : ℕ → FastFormatEntry
        double hint = record e2 {
          part2_len = length f - (0 + length u + 2 + length u2 + 2);
          buffer_size_hint = hint;
        }

        second_part : (hint : ℕ) → part1 (double hint) ≡ u2
        second_part hint =
            ap (take (0 + length u + 2 + length u2 - (0 + length u + 2))) (behind_first ∙ split2)
            ∙ take-append u2 (b'%' ∷ d2 ∷ rest) _ (omega arith)

        behind_second : drop (0 + length u + 2 + length u2 + 2) f ≡ rest
        behind_second =
            ap (drop (0 + length u + 2 + length u2 + 2)) (
              split
              ∙ ap (λ r. u ++ b'%' ∷ d ∷ r) split2
              ∙ sym (append_assoc u (b'%' ∷ d ∷ u2) (b'%' ∷ d2 ∷ rest)))
            ∙ drop_two (u ++ b'%' ∷ d ∷ u2) b'%' d2 rest _
                (omega (arith, length-append u (b'%' ∷ d ∷ u2)))

        module _ (h : (args : List Argument) → interpreted rest args ≡ some rest)
            (k2 : (args : List Argument)
              → interpreted s args
                ≡ Option.map
                    (◌++◌ u2)
                    (converted (next_text (kind_of d2) args) (interpreted rest))) where
          double-SameText : (hint : ℕ) → SameText (double hint)
          unfolding whole_text
          double-SameText hint =
              by_kind-is_kind (kind_of d) none (some (part0 (double hint))) _ kind
              ∙ two_conversions (double hint) (part0 (double hint)) u2 rest s
                  (next_text (kind_of d) args) refl (second_part hint)
                  (rest_of f rest (0 + length u + 2 + length u2 + 2) behind_second) h k2
              ∙ ap
                  (λ w.
                    Option.map (◌++◌ w) (converted (next_text (kind_of d) args) (interpreted s)))
                  first_part
              ∙ sym (k args)

          after_two : SameText (finish e2)
          unfolding finish
          after_two =
              by_test SameText
                (ltb 0 (max_arg_text_size (kind_of d)) && ltb 0 (max_arg_text_size (kind_of d2)))
                (λ sized. double-SameText _) λ unsized. double-SameText 0

  -- An accepted format has no conversion, one or two.
  pub finish-interpreted :
      (e : FastFormatEntry) → scan f 0 (empty_entry f) ≡ (true, e) → SameText (finish e)
  finish-interpreted e h = elim (scan-Found f 0 (empty_entry f) e h) [
    | nowhere same plain ↦ subst (λ x. SameText (finish x)) (sym same) (no_conversion plain)
    | somewhere u d s split kind few next printed ↦
        elim (scan-Found s (0 + length u + 2) (noted (kind_of d) (0 + length u) (empty_entry f)) e
          next) [
            | nowhere same plain ↦
                subst (λ x. SameText (finish x)) (sym same)
                  (after_one u s d split kind printed plain)
            | somewhere u2 d2 rest split2 kind2 few2 next2 printed2 ↦
                elim (scan-Found rest (0 + length u + 2 + length u2 + 2)
                  (noted (kind_of d2) (0 + length u + 2 + length u2)
                    (noted (kind_of d) (0 + length u) (empty_entry f)))
                  e next2) [
                    | nowhere same plain ↦
                        subst (λ x. SameText (finish x)) (sym same)
                          (after_two u s d split kind printed u2 rest d2 split2 plain printed2)
                    | somewhere u3 d3 rest3 split3 kind3 few3 next3 printed3 ↦ absurd (cc)
                  ]
          ]
  ]

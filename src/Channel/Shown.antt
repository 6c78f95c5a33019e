-- ===== src/Channel/Shown.antt =====
-- What a part of `Channel::Display` leaves behind, up to the guard.
use logme.Prelude.{
  ℕ, ◌<◌, ◌≡◌, refl, sym, ap, subst, ◌∙◌, ◌==◌, Bool, true, false, Option, none, some, List, [],
  ◌∷◌, ◌++◌, append-nil, append_assoc, if◌then◌else◌, ltb, Bool-cases, inl, inr, arith,
}
use mathlib.Core.Option
use logme.Channel.Reentry.{contains}
use logme.Channel.Reentry.Stack.{Valid, stack_of}
use logme.Channel.Distinct.{Distinct, Distinct-snoc, contains-snoc, same_number}
use logme.Channel.Visits.{unvisited}
use logme.Channel.Display.{
  Setting, Output, World, disable_link, overridden, Next, Result, thawed, display_each, to_backends,
  to_linked, target_of, display_passed, filtered,
}

abbrev pub channels_of : List Output → List ℕ
channels_of [] = []
channels_of (o ∷ os) = o.channel ∷ channels_of os

channels_of-snoc :
    (os : List Output) (o : Output) → channels_of (os ++ o ∷ []) ≡ channels_of os ++ o.channel ∷ []
channels_of-snoc [] o = refl
channels_of-snoc (x ∷ os) o = ap (λ l. x.channel ∷ l) (channels_of-snoc os o)

-- From one world to another, with new outputs of different channels, none of which is in `base`.
pub record Shown (base : List ℕ) (w v : World) : Type 0 where
  pub valid : Valid v.guard
  pub stack : stack_of v.guard ≡ stack_of w.guard
  pub new : List Output
  pub outputs : v.outputs ≡ w.outputs ++ new
  pub distinct : Distinct (channels_of new)
  pub apart : (k : ℕ) → contains k base ≡ true → contains k (channels_of new) ≡ false

nothing-Shown : (base : List ℕ) (w : World) → Valid w.guard → Shown base w w
nothing-Shown base w v = record {
  valid = v;
  stack = refl;
  new = [];
  outputs = sym (append-nil w.outputs);
  distinct = tt;
  apart = λ k h. refl;
}

contains-base :
    (k ch : ℕ) (base : List ℕ) → contains k base ≡ true → contains k (base ++ ch ∷ []) ≡ true
contains-base k ch base h = ground (arith, contains-snoc k ch base)

contains_end : (ch : ℕ) (base : List ℕ) → contains ch (base ++ ch ∷ []) ≡ true
contains_end ch base = ground (arith, contains-snoc ch ch base)

different :
    (k ch : ℕ) (base : List ℕ)
    → contains k base ≡ true
    → contains ch base ≡ false
    → (ch == k) ≡ false
different k ch base h g = elim (Bool-cases (ch == k)) [
  | inl same ↦ let e = ap (λ c. contains c base) (same_number ch k same) in cc
  | inr other ↦ other
]

module _ {X : Type 0} (e : Setting X) (n : ℕ) where
  -- A result, and what it shows.
  abbrev pub Done : List ℕ → World → Result e → Type 0
  Done base w r = (x : X) × (v : World) × (r ≡ some (x, v)) × Shown base w v

  -- The links go to channels with numbers below `n`.
  abbrev pub Closed : Type 0
  Closed = (ch t : ℕ) → target_of e (e.channels ch).link_to (e.channels ch).link ≡ some t → t < n

  -- What is known of the display on a linked channel.
  abbrev pub Good : Next e → ℕ → Type 0
  Good next m =
      (t : ℕ) (y : X) (w : World)
      → t < n
      → Valid w.guard
      → unvisited n (stack_of w.guard) < m
      → Done (stack_of w.guard) w (next t y w)

  pub to_linked-Done :
      (next : Next e) (m ch flags : ℕ) (o : Option ℕ) (x : X) (w : World)
      → Good next m
      → ((t : ℕ) → o ≡ some t → t < n)
      → Valid w.guard
      → unvisited n (stack_of w.guard) < m
      → Done (stack_of w.guard) w (to_linked e next ch flags o x w)
  unfolding to_linked
  to_linked-Done next m ch flags none x w g c v u = (x, w, refl, nothing-Shown _ w v)
  to_linked-Done next m ch flags (some t) x w g c v u = g t (e.apply ch flags x) w (c t refl) v u

  target_within :
      (flags ch : ℕ)
      → Closed
      → (t : ℕ)
      → (if disable_link flags
          then none
          else target_of e (e.channels ch).link_to (e.channels ch).link)
        ≡ some t
      → t < n
  target_within flags ch c t h = elim (Bool-cases (disable_link flags)) [
    | inl off ↦ let clash = rw off at h in cc
    | inr on ↦ c ch t (rw on at h)
  ]

  pub to_backends-Done :
      (ch : ℕ) (base : List ℕ) (w : World) (r : Result e)
      → stack_of w.guard ≡ base ++ ch ∷ []
      → contains ch base ≡ false
      → Done (stack_of w.guard) w r
      → Done base w (to_backends e ch r)
  unfolding to_backends
  to_backends-Done ch base w r s g (x, v, p, h) =
      let bs = (e.channels ch).backends in
      let o : Output = record { channel = ch; backends = thawed e bs } in
      let inside : (k : ℕ)
          → contains k (base ++ ch ∷ []) ≡ true
          → contains k (channels_of h.new) ≡ false =
        λ k c. h.apart k (ap (contains k) s ∙ c) in
      let more = channels_of-snoc h.new o in
      subst (λ r. Done base w (to_backends e ch r)) (sym p)
        (
          display_each e bs x,
          record v { outputs = v.outputs ++ o ∷ [] },
          refl,
          record {
            valid = h.valid;
            stack = h.stack;
            new = h.new ++ o ∷ [];
            outputs = ap (λ l. l ++ o ∷ []) h.outputs ∙ append_assoc w.outputs h.new (o ∷ []);
            distinct = subst Distinct (sym more) (
                Distinct-snoc ch (channels_of h.new) h.distinct (inside ch (contains_end ch base)));
            apart = λ k c.
                ap (contains k) more
                ∙ contains-snoc k ch (channels_of h.new)
                ∙ rw (inside k (contains-base k ch base c), different k ch base c g) refl;
          },
        )

  -- A return without output.
  pub returned-Done :
      (base : List ℕ) (x : X) (w : World) → Valid w.guard → Done base w (some (x, w))
  returned-Done base x w v = (x, w, refl, nothing-Shown base w v)

  pub display_passed-Done :
      (next : Next e) (m ch : ℕ) (base : List ℕ) (x : X) (w : World)
      → Good next m
      → Closed
      → Valid w.guard
      → stack_of w.guard ≡ base ++ ch ∷ []
      → contains ch base ≡ false
      → unvisited n (stack_of w.guard) < m
      → Done base w (display_passed e next ch x w)
  unfolding display_passed
  display_passed-Done next m ch base x w g c v s f u =
      let o = e.channels ch in
      let flags = overridden o.flags (e.overrides x) in
      let target = if disable_link flags then none else target_of e o.link_to o.link in
      let linked =
        to_backends-Done ch base w (to_linked e next ch flags target x w) s f
          (to_linked-Done next m ch flags target x w g (λ t h. target_within flags ch c t h) v u) in
      elim (Bool-cases
        (ltb (e.error_level x) (Option.get_or (e.subsystem_level x) o.level_filter))) [
          | inl low ↦ rw (display_passed, low) (returned-Done base x w v)
          | inr high ↦ rw (display_passed, high) linked
        ]

  pub filtered-Done :
      (next : Next e) (m ch : ℕ) (base : List ℕ) (o : Option (X → Bool × X)) (x : X) (w : World)
      → Good next m
      → Closed
      → Valid w.guard
      → stack_of w.guard ≡ base ++ ch ∷ []
      → contains ch base ≡ false
      → unvisited n (stack_of w.guard) < m
      → Done base w (filtered e next ch o x w)
  unfolding filtered
  filtered-Done next m ch base none x w g c v s f u =
      display_passed-Done next m ch base x w g c v s f u
  filtered-Done next m ch base (some p) x w g c v s f u = elim (Bool-cases (p x).0) [
    | inl pass ↦ rw (filtered, pass) (display_passed-Done next m ch base (p x).1 w g c v s f u)
    | inr stop ↦ rw (filtered, stop) (returned-Done base (p x).1 w v)
  ]

-- ===== src/Channel/Reentry/Stack.antt =====
-- The two representations of the guard's stack are one stack without repetitions.
use logme.Prelude.{
  ℕ, zero, suc, ◌+◌, ◌-◌, ◌≤◌, ◌<◌, ◌≡◌, refl, sym, ap, subst, ◌∙◌, ◌==◌, Bool, true, false, not,
  ◌&&◌, ◌||◌, List, [], ◌∷◌, ◌++◌, take, length, length-append, length-take, take-append, get_or,
  set, ltb, if◌then◌else◌, Bool-cases, inl, inr, arith,
}
use logme.Channel.Reentry.{
  State, contains, promote_to_overflow, enter_large, enter_small, enter, leave, small_capacity,
}

-- The channels that the thread is displaying on.
abbrev pub stack_of : State → List ℕ
stack_of s = if s.overflow then s.large_stack else take s.depth s.small_stack

pub record Valid (s : State) : Type 0 where
  pub depth : s.depth ≤ small_capacity
  pub array : length s.small_stack ≡ small_capacity
  pub unused : s.overflow ≡ false → s.large_stack ≡ []

take-set : (xs : List ℕ) (n x : ℕ) → n < length xs → take (suc n) (set xs n x) ≡ take n xs ++ x ∷ []
take-set [] n x h = absurd (omega arith)
take-set (y ∷ ys) zero x h = refl
take-set (y ∷ ys) (suc n) x h = ap (◌∷◌ y) (take-set ys n x (omega arith))

set-length : (xs : List ℕ) (n x : ℕ) → length (set xs n x) ≡ length xs
set-length [] n x = refl
set-length (y ∷ ys) zero x = refl
set-length (y ∷ ys) (suc n) x = ap suc (set-length ys n x)

or_right : (b : Bool) → (b || true) ≡ true
or_right true = refl
or_right false = refl

-- The shortcut through the last element finds nothing that the loop does not find.
contains-last :
    (xs : List ℕ) (n x : ℕ)
    → n < length xs
    → (get_or xs n 0 == x) ≡ true
    → contains x (take (suc n) xs) ≡ true
contains-last [] n x h e = absurd (omega arith)
contains-last (y ∷ ys) zero x h e = rw e refl
contains-last (y ∷ ys) (suc n) x h e = rw (contains-last ys n x (omega arith) e) (or_right (y == x))

-- What `enter` does to the stack.
pub record Entered (c : ℕ) (s : State) (r : Bool × State) : Type 0 where
  pub valid : Valid r.1
  pub active : r.0 ≡ not (contains c (stack_of s))
  pub stack : stack_of r.1 ≡ (if r.0 then stack_of s ++ c ∷ [] else stack_of s)

enter_large-Entered :
    (c : ℕ) (s : State) → Valid s → s.overflow ≡ true → Entered c s (enter_large c s)
unfolding enter_large
enter_large-Entered c s v o = elim (Bool-cases (contains c s.large_stack)) [
  | inl there ↦
      rw (enter_large, there) (record { valid = v; active = rw (o, there) refl; stack = refl })
  | inr new ↦
      rw (enter_large, new)
        (record {
          valid = record { depth = v.depth; array = v.array; unused = λ f. cc };
          active = rw (o, new) refl;
          stack = rw o refl;
        })
]

promoted_stack :
    (s : State) → Valid s → s.overflow ≡ false → stack_of (promote_to_overflow s) ≡ stack_of s
unfolding promote_to_overflow
promoted_stack s v o = rw (o, v.unused o) refl

promoted-Valid : (s : State) → Valid s → Valid (promote_to_overflow s)
unfolding promote_to_overflow
promoted-Valid s v = record { depth = v.depth; array = v.array; unused = λ f. cc }

promoted_flag : (s : State) → (promote_to_overflow s).overflow ≡ true
unfolding promote_to_overflow
promoted_flag s = refl

Entered-promoted :
    (c : ℕ) (s : State) (r : Bool × State)
    → Valid s
    → s.overflow ≡ false
    → Entered c (promote_to_overflow s) r
    → Entered c s r
Entered-promoted c s r v o e =
    let same = promoted_stack s v o in
    record {
      valid = e.valid;
      active = e.active ∙ ap (λ l. not (contains c l)) same;
      stack = e.stack ∙ ap (λ l. if r.0 then l ++ c ∷ [] else l) same;
    }

already-Entered :
    (c : ℕ) (s : State) → Valid s → contains c (stack_of s) ≡ true → Entered c s (false, s)
already-Entered c s v h = record { valid = v; active = rw h refl; stack = refl }

last_of_depth :
    (s : State) (c : ℕ)
    → Valid s
    → (ltb 0 s.depth && get_or s.small_stack (s.depth - 1) 0 == c) ≡ true
    → contains c (take s.depth s.small_stack) ≡ true
last_of_depth s c v h =
    let e : s.depth ≡ suc (s.depth - 1) = ground arith in
    ap (λ n. contains c (take n s.small_stack)) e
    ∙ contains-last s.small_stack (s.depth - 1) c (ground (arith, v.depth, v.array)) (ground arith)

enter_small-Entered :
    (c : ℕ) (s : State) → Valid s → s.overflow ≡ false → Entered c s (enter_small c s)
unfolding enter_small
enter_small-Entered c s v o =
    elim (Bool-cases (ltb 0 s.depth && get_or s.small_stack (s.depth - 1) 0 == c)) [
      | inl top ↦ rw (enter_small, top) (already-Entered c s v (rw o (last_of_depth s c v top)))
      | inr other ↦ elim (Bool-cases (contains c (take s.depth s.small_stack))) [
        | inl there ↦ rw (enter_small, other, there) (already-Entered c s v (rw o there))
        | inr new ↦ elim (Bool-cases (ltb s.depth small_capacity)) [
          | inl room ↦
              rw (enter_small, other, new, room)
                (record {
                  valid = record {
                    depth = ground arith;
                    array = set-length s.small_stack s.depth c ∙ v.array;
                    unused = λ f. v.unused o;
                  };
                  active = rw (o, new) refl;
                  stack = rw o (
                      let e : s.depth + 1 ≡ suc s.depth = omega arith in
                      ap (λ n. take n (set s.small_stack s.depth c)) e
                      ∙ take-set s.small_stack s.depth c (ground (arith, v.array)));
                })
          | inr full ↦
              rw (enter_small, other, new, full)
                (Entered-promoted c s _ v o (
                  enter_large-Entered c (promote_to_overflow s) (promoted-Valid s v)
                    (promoted_flag s)))
        ]
      ]
    ]

-- A guard is active exactly where the thread is not displaying on its channel already, and then puts
-- the channel on the stack, in whichever of the two representations; else it changes nothing.
pub enter-Entered : (c : ℕ) (s : State) → Valid s → Entered c s (enter c s)
unfolding enter
enter-Entered c s v = elim (Bool-cases s.overflow) [
  | inl o ↦
      let e : enter c s ≡ enter_large c s = ground arith in
      subst (Entered c s) (sym e) (enter_large-Entered c s v o)
  | inr o ↦
      let e : enter c s ≡ enter_small c s = ground arith in
      subst (Entered c s) (sym e) (enter_small-Entered c s v o)
]

abbrev Left : List ℕ → State → Type 0
Left v r = Valid r × (stack_of r ≡ v)

take-take : (m n : ℕ) (xs : List ℕ) → m ≤ n → take m (take n xs) ≡ take m xs
take-take zero n xs h = refl
take-take (suc m) zero xs h = absurd (omega arith)
take-take (suc m) (suc n) [] h = refl
take-take (suc m) (suc n) (x ∷ xs) h = ap (◌∷◌ x) (take-take m n xs (omega arith))

-- The end of an active guard takes the last channel off the stack, whether the stack was moved since
-- the guard was made or not.
pub leave_lem :
    (s : State) (v : List ℕ) (c : ℕ)
    → Valid s
    → stack_of s ≡ v ++ c ∷ []
    → Valid (leave true s) × (stack_of (leave true s) ≡ v)
unfolding leave
leave_lem s v c w e = elim (Bool-cases s.overflow) [
  | inl o ↦
      let left : State = record s { large_stack = take (length s.large_stack - 1) s.large_stack } in
      let same : leave true s ≡ left = ground arith in
      let whole : s.large_stack ≡ v ++ c ∷ [] = subst (λ t. t ≡ v ++ c ∷ []) (rw o refl) e in
      subst (Left v) (sym same) (
        record { depth = w.depth; array = w.array; unused = λ f. cc },
        rw o (
            ap (take (length s.large_stack - 1)) whole
            ∙ take-append v (c ∷ []) (length s.large_stack - 1)
                (omega (arith, ap length whole, length-append v (c ∷ [])))),
      )
  | inr o ↦
      let left : State = record s { depth = s.depth - 1 } in
      let same : leave true s ≡ left = ground arith in
      let whole : take s.depth s.small_stack ≡ v ++ c ∷ [] =
        subst (λ t. t ≡ v ++ c ∷ []) (rw o refl) e in
      subst (Left v) (sym same) (
        record { depth = omega (arith, w.depth); array = w.array; unused = w.unused },
        rw o (
            sym (take-take (s.depth - 1) s.depth s.small_stack (omega arith))
            ∙ ap (take (s.depth - 1)) whole
            ∙ take-append v (c ∷ []) (s.depth - 1) (
                omega (
                  arith,
                  ap length whole,
                  length-append v (c ∷ []),
                  length-take s.depth s.small_stack,
                  w.depth,
                  w.array,
                ))),
      )
]

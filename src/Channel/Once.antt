-- ===== src/Channel/Once.antt =====
-- `Channel::Display` ends, and no channel writes a record twice.
use logme.Prelude.{
  ℕ, zero, suc, ◌<◌, ◌≡◌, refl, sym, ap, subst, ◌∙◌, Bool, true, false, not, [], ◌∷◌, ◌++◌,
  append-nil, Bool-cases, inl, inr, arith,
}
use logme.Channel.Reentry.{State, contains, enter, leave}
use logme.Channel.Reentry.Stack.{Valid, stack_of, Entered, enter-Entered, leave_lem}
use logme.Channel.Visits.{unvisited, unvisited_less}
use logme.Channel.Display.{
  Setting, World, counted, Next, Result, filtered, left, guarded, display_body, display,
}
use logme.Channel.Shown.{Done, Closed, Good, returned-Done, filtered-Done}

negated : (b : Bool) → not b ≡ true → b ≡ false
negated false h = refl
negated true h = cc

module _ {X : Type 0} (e : Setting X) (n : ℕ) where
  -- The steps of `Display` around the guard.
  -- The end of a guard that is active.
  left-Done :
      (ch : ℕ) (w inner : World) (r : Result e)
      → stack_of inner.guard ≡ stack_of w.guard ++ ch ∷ []
      → inner.outputs ≡ w.outputs
      → Done e n (stack_of w.guard) inner r
      → Done e n (stack_of w.guard) w (left e true r)
  unfolding left
  left-Done ch w inner r s o (x, v, p, h) =
      let (valid, back) = leave_lem v.guard (stack_of w.guard) ch h.valid (h.stack ∙ s) in
      subst (λ r. Done e n (stack_of w.guard) w (left e true r)) (sym p)
        (
          x,
          record v { guard = leave true v.guard },
          refl,
          record {
            valid = valid;
            stack = back;
            new = h.new;
            outputs = h.outputs ∙ ap (λ l. l ++ h.new) o;
            distinct = h.distinct;
            apart = h.apart;
          },
        )

  guarded-Done :
      (next : Next e) (m ch : ℕ) (x : X) (w : World) (r : Bool × State)
      → Good e n next m
      → Closed e n
      → ch < n
      → unvisited n (stack_of w.guard) < suc m
      → Entered ch w.guard r
      → Done e n (stack_of w.guard) w (guarded e next ch x w r)
  unfolding guarded left leave
  guarded-Done next m ch x w (false, guard) g c h u d = (
    x,
    record w { guard = guard },
    refl,
    record {
      valid = d.valid;
      stack = d.stack;
      new = [];
      outputs = sym (append-nil w.outputs);
      distinct = tt;
      apart = λ k k'. refl;
    },
  )
  guarded-Done next m ch x w (true, guard) g c h u d =
      let inner : World = record w { guard = guard } in
      let fresh : contains ch (stack_of w.guard) ≡ false = negated _ (sym d.active) in
      let fewer = unvisited_less n ch (stack_of w.guard) h fresh in
      left-Done ch w inner (filtered e next ch (e.channels ch).display_filter x inner) d.stack refl
        (filtered-Done e n next m ch (stack_of w.guard) (e.channels ch).display_filter x inner g c
          d.valid d.stack fresh (omega (arith, fewer, u, ap (unvisited n) d.stack)))

  counted-Done :
      (ch : ℕ) (w : World) (r : Result e)
      → Done e n (stack_of w.guard) (counted ch w) r
      → Done e n (stack_of w.guard) w r
  counted-Done ch w r (x, v, p, h) = (
    x,
    v,
    p,
    record {
      valid = h.valid;
      stack = h.stack;
      new = h.new;
      outputs = h.outputs;
      distinct = h.distinct;
      apart = h.apart;
    },
  )

  display_body-Done :
      (next : Next e) (m ch : ℕ) (x : X) (w : World)
      → Good e n next m
      → Closed e n
      → ch < n
      → Valid w.guard
      → unvisited n (stack_of w.guard) < suc m
      → Done e n (stack_of w.guard) w (display_body e next ch x w)
  unfolding display_body
  display_body-Done next m ch x w g c h v u = elim (Bool-cases e.shutdown) [
    | inl off ↦ rw (display_body, off) (returned-Done e n (stack_of w.guard) x w v)
    | inr on ↦ elim (Bool-cases (e.channels ch).enabled) [
      | inl enabled ↦
          rw (display_body, on, enabled)
            (counted-Done ch w _ (
              guarded-Done next m ch x (counted ch w) (enter ch w.guard) g c h u
                (enter-Entered ch w.guard v)))
      | inr disabled ↦
          rw (display_body, on, disabled)
            (counted-Done ch w _ (returned-Done e n (stack_of w.guard) x (counted ch w) v))
    ]
  ]

  -- Where all links go to channels with numbers below `n`, `Display` on one of these returns, with
  -- fuel for more calls than there are such channels on which the thread is not displaying, however
  -- the links run. The guard's stack is then as it was; and the channels that gave the record to their
  -- backends are all different, and none of them is one on which the thread was displaying before.
  pub display-Done :
      (fuel ch : ℕ) (x : X) (w : World)
      → Closed e n
      → ch < n
      → Valid w.guard
      → unvisited n (stack_of w.guard) < fuel
      → Done e n (stack_of w.guard) w (display e fuel ch x w)
  unfolding display
  display-Done zero ch x w c h v u = absurd (omega arith)
  display-Done (suc fuel) ch x w c h v u =
      display_body-Done (display e fuel) fuel ch x w
        (λ t y z k v' u'. display-Done fuel t y z c k v' u') c h v u

-- ===== src/Channel/Display.antt =====
-- `Channel::Display`: a record goes to the linked channel, and then to the backends. What the filters,
-- `Context::Apply` and the backends do to the context is given; so is the logger's look-up of a
-- channel, and the channels do not change while one record is displayed.
use mathlib.Core.Option
use logme.Prelude.{
  ℕ, suc, zero, ◌-◌, ◌/◌, ◌%◌, ◌^◌, ◌==◌, Bool, true, false, not, Option, none, some, List, [], ◌∷◌,
  ◌++◌, ltb, if◌then◌else◌, add64, bit_or, bit_and, bit_xor,
}
use logme.Channel.Reentry.{State, enter, leave}
use logme.Channel.State.{Channel, Freezed}

-- `channels` holds the channel with each number; `overrides` the flags that the context adds and
-- removes, where it has an override.
pub record Setting (X : Type 0) : Type 0 where
  pub shutdown : Bool
  pub channels : ℕ → Channel X
  pub get_channel : List ℕ → Option ℕ
  pub subsystem_level : X → Option ℕ
  pub error_level : X → ℕ
  pub overrides : X → Option (ℕ × ℕ)
  pub apply : ℕ → ℕ → X → X
  pub freezed : Freezed
  pub display_backend : ℕ → X → X

-- The backends to which one channel gave the record.
pub record Output : Type 0 where
  pub channel : ℕ
  pub backends : List ℕ

-- The thread's guard, `AccessCount` of each channel, and the outputs so far.
pub record World : Type 0 where
  pub guard : State
  pub access_counts : ℕ → ℕ
  pub outputs : List Output

abbrev pub counted : ℕ → World → World
counted ch w = record w {
  access_counts = λ k. if k == ch then add64 (w.access_counts k) 1 else w.access_counts k;
}

unfoldable pub disable_link : ℕ → Bool
disable_link flags = flags / 2 ^ 16 % 2 == 1

unfoldable pub overridden : ℕ → Option (ℕ × ℕ) → ℕ
overridden flags none = flags
overridden flags (some (add, remove)) = bit_and (bit_or flags add) (bit_xor (2 ^ 32 - 1) remove)

module _ {X : Type 0} (e : Setting X) where
  abbrev pub Result : Type 0
  Result = Option (X × World)

  abbrev pub Next : Type 0
  Next = ℕ → X → World → Result

  unfoldable pub display_each : List ℕ → X → X
  display_each [] x = x
  display_each (b ∷ bs) x =
      if e.freezed b then display_each bs x else display_each bs (e.display_backend b x)

  abbrev pub thawed : List ℕ → List ℕ
  thawed [] = []
  thawed (b ∷ bs) = if e.freezed b then thawed bs else b ∷ thawed bs

  -- The loop over the backends.
  unfoldable pub to_backends : ℕ → Result → Result
  unfolding display_each
  to_backends ch none = none
  to_backends ch (some (x, w)) =
      let bs = (e.channels ch).backends in
      some (
        display_each bs x,
        record w { outputs = w.outputs ++ record { channel = ch; backends = thawed bs } ∷ [] },
      )

  unfoldable pub to_linked : Next → ℕ → ℕ → Option ℕ → X → World → Result
  to_linked next ch flags none x w = some (x, w)
  to_linked next ch flags (some target) x w = next target (e.apply ch flags x) w

  -- The channel that a record is passed on to: the object, or else the one with the name.
  unfoldable pub target_of : Option ℕ → Option (List ℕ) → Option ℕ
  target_of (some ch) link = some ch
  target_of none none = none
  target_of none (some name) = e.get_channel name

  -- From the level on, when the filter has let the record pass.
  unfoldable pub display_passed : Next → ℕ → X → World → Result
  unfolding to_backends to_linked target_of overridden disable_link
  display_passed next ch x w =
      let c = e.channels ch in
      let flags = overridden c.flags (e.overrides x) in
      if ltb (e.error_level x) (Option.get_or (e.subsystem_level x) c.level_filter)
      then some (x, w)
      else to_backends ch (
          to_linked next ch flags (if disable_link flags then none else target_of c.link_to c.link)
            x w)

  unfoldable pub filtered : Next → ℕ → Option (X → Bool × X) → X → World → Result
  unfolding display_passed
  filtered next ch none x w = display_passed next ch x w
  filtered next ch (some f) x w =
      let (pass, y) = f x in if pass then display_passed next ch y w else some (y, w)

  -- The destructor of the guard, on every return behind it.
  unfoldable pub left : Bool → Result → Result
  left active none = none
  left active (some (x, w)) = some (x, record w { guard = leave active w.guard })

  unfoldable pub guarded : Next → ℕ → X → World → Bool × State → Result
  unfolding filtered left
  guarded next ch x w (false, guard) = left false (some (x, record w { guard = guard }))
  guarded next ch x w (true, guard) =
      left true (filtered next ch (e.channels ch).display_filter x (record w { guard = guard }))

  unfoldable pub display_body : Next → Next
  unfolding guarded
  display_body next ch x w =
      if e.shutdown
      then some (x, w)
      else if not (e.channels ch).enabled
      then some (x, counted ch w)
      else guarded next ch x (counted ch w) (enter ch w.guard)

  -- The fuel bounds the depth of the calls through links.
  unfoldable pub display : ℕ → Next
  unfolding display_body
  display zero ch x w = none
  display (suc fuel) ch x w = display_body (display fuel) ch x w

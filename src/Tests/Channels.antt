-- ===== src/Tests/Channels.antt =====
-- Runs of Channel.cpp and ReentryGuard.cpp.
use mathlib.Core.Option
use logme.Prelude.{ℕ, ◌+◌, ◌≡◌, refl, true, false, none, some, [], ◌∷◌, ◌==◌, if◌then◌else◌, arith}
use logme.Channel.Reentry.{State, initial_guard, enter}
use logme.Channel.Reentry.Stack.{Valid, stack_of, Entered, enter-Entered}
use logme.Channel.State.{Channel, Freezed, new_channel, add_backend, add_link}
use logme.Channel.Consistency.{
  Consistent, History, begin, after, add, link_object, History-Consistent,
}
use logme.Channel.Display.{Setting, World, display, target_of}
use logme.Channel.ThreadNames.{ThreadNames, get_thread_name, set_thread_name, flag_of}
use logme.Channel.ThreadNames.Transitions.{name_before, get-set_thread_name}
use logme.Channel.Shortener.{given, ShortenerPair, shortener_run}
use logme.Channel.Shortener.Replacing.{Bounded, shortener_run-Bounded}
use logme.Channel.Shown.{Done, Closed}
use logme.Channel.Once.{display-Done}

initial_guard-Valid : Valid initial_guard
unfolding initial_guard
initial_guard-Valid = record { depth = omega arith; array = refl; unused = λ h. refl }

enter-Entered_example : Entered 5 initial_guard (enter 5 initial_guard)
enter-Entered_example = enter-Entered 5 initial_guard initial_guard-Valid

abbrev busy : State
busy = record {
  depth = 8;
  overflow = true;
  small_stack = 1 ∷ 2 ∷ 3 ∷ 4 ∷ 5 ∷ 6 ∷ 7 ∷ 8 ∷ [];
  large_stack = 1 ∷ 2 ∷ [];
}

abbrev nothing_freezed : Freezed
nothing_freezed b = false

abbrev plain : Channel ℕ
plain = new_channel 0 0

steps :
    History
      (plain, nothing_freezed)
      (add_link false (some 1) (add_backend false 7 plain), nothing_freezed)
steps =
    after (after begin (add false 7 plain nothing_freezed))
      (link_object false 1 (add_backend false 7 plain) nothing_freezed)

History-Consistent_example : Consistent (add_link false (some 1) (add_backend false 7 plain))
History-Consistent_example = History-Consistent 0 0 steps

-- Two channels that are linked to each other.
abbrev ring_channel : ℕ → Channel ℕ
ring_channel k = record {
  flags = 0;
  level_filter = 0;
  enabled = true;
  linked = true;
  backend_count = 1;
  active = true;
  link = none;
  link_to = some (if k == 0 then 1 else 0);
  display_filter = none;
  backends = (40 + k) ∷ [];
}

abbrev setting : Setting ℕ
setting = record {
  shutdown = false;
  channels = ring_channel;
  get_channel = λ name. none;
  subsystem_level = λ x. none;
  error_level = λ x. 1;
  overrides = λ x. none;
  apply = λ flags ch x. x + 1;
  freezed = nothing_freezed;
  display_backend = λ b x. x + 10;
}

setting-Closed : Closed setting 2
unfolding target_of
setting-Closed ch t h = let e = Option.some-injective (if ch == 0 then 1 else 0) t h in ground arith

abbrev world : World
world = record { guard = initial_guard; access_counts = λ k. 0; outputs = [] }

display-Done_example : Done setting 2 (stack_of initial_guard) world (display setting 3 0 7 world)
unfolding initial_guard
display-Done_example =
    display-Done setting 2 3 0 7 world setting-Closed (omega arith) initial_guard-Valid
      (omega arith)

abbrev no_names : ThreadNames
no_names k = none

get-set_thread_name_example :
    let first =
      get_thread_name 5 true true (set_thread_name 5 (some (65 ∷ [])) true (some 1) no_names) in
    let second = get_thread_name 5 true true first.names in
    (first.name ≡ some (65 ∷ []))
    × (first.transition ≡ name_before 5 (no_names 5))
    × (first.forward_transition_printed ≡ flag_of (name_before 5 (no_names 5)) (some 1))
    × (second.name ≡ some (65 ∷ []))
    × (second.transition ≡ none)
    × ((k : ℕ) → (k == 5) ≡ false → second.names k ≡ no_names k)
get-set_thread_name_example = get-set_thread_name 5 (65 ∷ []) (some 1) no_names

abbrev pair : ShortenerPair
pair = record { search_for = 65 ∷ 66 ∷ []; replace_on = 67 ∷ [] }

shortener_run-Bounded_example :
    Bounded
      (shortener_run (some (pair ∷ [])) [] (record { text = 65 ∷ 66 ∷ 68 ∷ []; place = given }))
shortener_run-Bounded_example =
    shortener_run-Bounded (some (pair ∷ [])) [] (record { text = 65 ∷ 66 ∷ 68 ∷ []; place = given })
      (λ e. cc)

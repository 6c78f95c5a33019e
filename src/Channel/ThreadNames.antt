-- ===== src/Channel/ThreadNames.antt =====
-- `Channel::SetThreadName` and `Channel::GetThreadName`, on the map from threads to their names.
pub mod Transitions
use logme.Prelude.{
  ℕ, zero, suc, ◌+◌, ◌/◌, ◌%◌, ◌==◌, Bool, true, false, not, ◌&&◌, Option, none, some, List, [],
  ◌∷◌, ◌++◌, ltb, if◌then◌else◌,
}

-- A null pointer to the flag of a printed transition is `none`.
pub record ThreadNameRecord : Type 0 where
  pub name : Option (List ℕ)
  pub prev : Option (List ℕ)
  pub forward_transition_printed : Option ℕ

abbrev pub ThreadNames : Type 0
ThreadNames = ℕ → Option ThreadNameRecord

abbrev pub stored : ℕ → Option ThreadNameRecord → ThreadNames → ThreadNames
stored id r names k = if k == id then r else names k

abbrev pub hex_digit : ℕ → ℕ
hex_digit d = if ltb d 10 then 48 + d else 55 + d

-- `snprintf` of a number in upper-case hexadecimal digits; `n + 1` rounds are enough.
unfoldable pub hexadecimal : ℕ → ℕ → List ℕ
hexadecimal zero n = []
hexadecimal (suc fuel) n =
    let more = hexadecimal fuel (n / 16) ++ hex_digit (n % 16) ∷ [] in
    if ltb n 16 then hex_digit n ∷ [] else more

unfoldable pub hex_upper : ℕ → List ℕ
unfolding hexadecimal
hex_upper n = hexadecimal (suc n) n

abbrev pub logged : Bool → Option ℕ → ThreadNameRecord → ThreadNameRecord
logged true flag r = record r { prev = r.name; forward_transition_printed = flag }
logged false flag r = record r { prev = none; forward_transition_printed = none }

-- For a thread that has a record, the record after the call, if it keeps one.
unfoldable pub renamed :
    Option (List ℕ) → Bool → Option ℕ → ThreadNameRecord → Option ThreadNameRecord
renamed (some name) log flag r = some (record (logged log flag r) { name = some name })
renamed none true flag r = some (record (logged true flag r) { name = none })
renamed none false flag r = none

-- For a thread that has none.
unfoldable pub named : ℕ → Option (List ℕ) → Bool → Option ℕ → Option ThreadNameRecord
unfolding hex_upper
named id none log flag = none
named id (some name) log flag = some (record {
  name = some name;
  prev = if log then some (hex_upper id) else none;
  forward_transition_printed = if log then flag else none;
})

unfoldable pub next_record :
    ℕ → Option (List ℕ) → Bool → Option ℕ → Option ThreadNameRecord → Option ThreadNameRecord
unfolding renamed named
next_record id name log flag (some r) = renamed name log flag r
next_record id name log flag none = named id name log flag

unfoldable pub set_thread_name : ℕ → Option (List ℕ) → Bool → Option ℕ → ThreadNames → ThreadNames
unfolding next_record
set_thread_name id name log flag names = stored id (next_record id name log flag (names id)) names

-- What `GetThreadName` returns, in its value and its two output arguments, and the map.
pub record Answer : Type 0 where
  pub name : Option (List ℕ)
  pub transition : Option (List ℕ)
  pub forward_transition_printed : Option ℕ
  pub names : ThreadNames

unfoldable pub flag_of : Option (List ℕ) → Option ℕ → Option ℕ
flag_of none flag = none
flag_of (some prev) flag = flag

abbrev pub no_answer : ThreadNames → Answer
no_answer names = record {
  name = none;
  transition = none;
  forward_transition_printed = none;
  names = names;
}

abbrev pub is_none {ℓ} : {A : Type ℓ} → Option A → Bool
is_none none = true
is_none (some x) = false

unfoldable pub answer : ℕ → Bool → Bool → Option ThreadNameRecord → ThreadNames → Answer
unfolding flag_of
answer id want clear none names = no_answer names
answer id want clear (some r) names =
    if is_none r.name && is_none r.prev then no_answer (stored id none names) else record {
      name = r.name;
      transition = if want then r.prev else none;
      forward_transition_printed =
          if want then flag_of r.prev r.forward_transition_printed else none;
      names =
          if clear
          then stored id (some (record r { prev = none; forward_transition_printed = none })) names
          else names;
    }

-- `want` says that the caller passes a place for the transition.
unfoldable pub get_thread_name : ℕ → Bool → Bool → ThreadNames → Answer
unfolding answer
get_thread_name id want clear names = answer id want clear (names id) names

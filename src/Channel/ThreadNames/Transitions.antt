-- ===== src/Channel/ThreadNames/Transitions.antt =====
-- A change of a thread's name is reported once.
use logme.Prelude.{ℕ, ◌≡◌, refl, ap, ◌∙◌, ◌==◌, true, false, Option, none, some, List, arith}
use logme.Channel.ThreadNames.{
  ThreadNameRecord, ThreadNames, stored, hex_upper, renamed, named, next_record, set_thread_name,
  Answer, flag_of, answer, get_thread_name,
}

-- The name that a new name comes after: the old one, or the number of a thread without a record.
abbrev pub name_before : ℕ → Option ThreadNameRecord → Option (List ℕ)
name_before id none = some (hex_upper id)
name_before id (some r) = r.name

stored_here :
    (id : ℕ) (r : Option ThreadNameRecord) (names : ThreadNames) → stored id r names id ≡ r
stored_here id r names = ground arith

record_after :
    (id : ℕ) (name : List ℕ) (flag : Option ℕ) (o : Option ThreadNameRecord)
    → next_record id (some name) true flag o
      ≡ some
          (record { name = some name; prev = name_before id o; forward_transition_printed = flag })
unfolding next_record renamed named
record_after id name flag none = refl
record_after id name flag (some r) = refl

-- After a change of a thread's name that is to be logged, the first look at it gives the new name,
-- the name before it and the flag, if there was a name before; the second look gives the new name
-- alone; and other threads keep their records.
pub get-set_thread_name :
    (id : ℕ) (name : List ℕ) (flag : Option ℕ) (names : ThreadNames)
    → let first = get_thread_name id true true (set_thread_name id (some name) true flag names) in
      let second = get_thread_name id true true first.names in
      (first.name ≡ some name)
      × (first.transition ≡ name_before id (names id))
      × (first.forward_transition_printed ≡ flag_of (name_before id (names id)) flag)
      × (second.name ≡ some name)
      × (second.transition ≡ none)
      × ((k : ℕ) → (k == id) ≡ false → second.names k ≡ names k)
unfolding get_thread_name set_thread_name answer flag_of
get-set_thread_name id name flag names =
    let before = name_before id (names id) in
    let changed = set_thread_name id (some name) true flag names in
    let r : ThreadNameRecord = record {
      name = some name;
      prev = before;
      forward_transition_printed = flag;
    } in
    let cleared : ThreadNameRecord = record {
      name = some name;
      prev = none;
      forward_transition_printed = none;
    } in
    let later = stored id (some cleared) changed in
    let one : get_thread_name id true true changed ≡ answer id true true (some r) changed =
      ap (λ o. answer id true true o changed)
        (stored_here id (next_record id (some name) true flag (names id)) names
          ∙ record_after id name flag (names id)) in
    let two : get_thread_name id true true later ≡ answer id true true (some cleared) later =
      ap (λ o. answer id true true o later) (stored_here id (some cleared) changed) in
    let again = ap (λ (a : Answer). get_thread_name id true true a.names) one ∙ two in
    (
      ap (λ (a : Answer). a.name) one,
      ap (λ (a : Answer). a.transition) one,
      ap (λ (a : Answer). a.forward_transition_printed) one,
      ap (λ (a : Answer). a.name) again,
      ap (λ (a : Answer). a.transition) again,
      λ k other. ap (λ (a : Answer). a.names k) again ∙ rw other refl,
    )

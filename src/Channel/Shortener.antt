-- ===== src/Channel/Shortener.antt =====
-- The shorteners of Channel.cpp, which replace a prefix of a text. A text is where the pointer to it
-- goes: into the text that was given, to the static buffer or to the string of the context.
pub mod Replacing
use logme.Prelude.{
  ℕ, ◌+◌, ◌-◌, ◌==◌, Bool, true, false, ◌&&◌, Option, none, some, List, [], ◌∷◌, ◌++◌, drop, length,
  ltb, if◌then◌else◌,
}
use logme.Text.Search.{starts_with}

pub data Place : Type 0 where
  given static_buffer buffer : Place

pub record Placed : Type 0 where
  pub text : List ℕ
  pub place : Place

pub record ShortenerPair : Type 0 where
  pub search_for : List ℕ
  pub replace_on : List ℕ

abbrev pub static_size : ℕ
static_size = 256

-- The text `value` with its prefix `what` replaced.
unfoldable pub replaced : List ℕ → List ℕ → List ℕ → Placed
replaced value what on =
    let rest = drop (length what) value in
    if length on == 0
    then record { text = rest; place = Place.given }
    else if ltb (length on + length value - length what) static_size
    then record { text = on ++ rest; place = Place.static_buffer }
    else record { text = on ++ rest; place = Place.buffer }

-- The loop over the pairs before the end of the table.
unfoldable pub first_match : List ℕ → List ShortenerPair → Placed
unfolding replaced
first_match value [] = record { text = value; place = Place.given }
first_match value (p ∷ pairs) =
    let rest = first_match value pairs in
    if ltb (length value) (length p.search_for)
    then rest
    else if starts_with value p.search_for
    then replaced value p.search_for p.replace_on
    else rest

abbrev pub is_given : Place → Bool
is_given Place.given = true
is_given Place.static_buffer = false
is_given Place.buffer = false

unfoldable pub shortener_pair_run : Placed → List ShortenerPair → Placed
unfolding first_match
shortener_pair_run value pairs =
    if is_given value.place then first_match value.text pairs else value

-- `std::map` compares the bytes of its keys.
unfoldable pub text_less : List ℕ → List ℕ → Bool
text_less [] [] = false
text_less [] (y ∷ ys) = true
text_less (x ∷ xs) [] = false
text_less (x ∷ xs) (y ∷ ys) = if x == y then text_less xs ys else ltb x y

-- The map from prefixes to replacements, in the order of its keys.
unfoldable pub map_set : List ℕ → List ℕ → List ShortenerPair → List ShortenerPair
unfolding text_less
map_set what on [] = record { search_for = what; replace_on = on } ∷ []
map_set what on (p ∷ rest) =
    let more = map_set what on rest in
    if text_less what p.search_for
    then record { search_for = what; replace_on = on } ∷ (p ∷ rest)
    else if text_less p.search_for what
    then p ∷ more
    else record p { replace_on = on } ∷ rest

unfoldable pub map_erase : List ℕ → List ShortenerPair → List ShortenerPair
unfolding text_less
map_erase what [] = []
map_erase what (p ∷ rest) =
    let more = map_erase what rest in
    if text_less what p.search_for
    then p ∷ rest
    else if text_less p.search_for what
    then p ∷ more
    else rest

unfoldable pub shortener_add : List ℕ → Option (List ℕ) → List ShortenerPair → List ShortenerPair
unfolding map_set map_erase
shortener_add what none m = map_erase what m
shortener_add what (some on) m = map_set what on m

-- With the static table, if one is set, and then the map.
unfoldable pub shortener_run : Option (List ShortenerPair) → List ShortenerPair → Placed → Placed
unfolding shortener_pair_run
shortener_run none m value = shortener_pair_run value m
shortener_run (some pairs) m value = shortener_pair_run (shortener_pair_run value pairs) m

-- ===== src/Channel/Shortener/Replacing.antt =====
-- What the shorteners make of a text, and that it fits in the buffer that it is put in.
use logme.Prelude.{
  ℕ, ◌+◌, ◌-◌, ◌≤◌, ◌≡◌, ◌==◌, Option, none, some, List, [], ◌∷◌, drop, length, length-append,
  length-drop, ltb, Bool-cases, inl, inr, arith,
}
use logme.Text.Search.{starts_with, starts_with-length}
use logme.Channel.Shortener.{
  Place, Placed, ShortenerPair, static_size, replaced, first_match, is_given, shortener_pair_run,
  shortener_run,
}

-- A text in the static buffer has room there with its terminating zero.
abbrev pub Bounded : Placed → Type 0
Bounded v = v.place ≡ Place.static_buffer → length v.text + 1 ≤ static_size

replaced-Bounded :
    (value what on : List ℕ) → length what ≤ length value → Bounded (replaced value what on)
unfolding replaced
replaced-Bounded value what on h = elim (Bool-cases (length on == 0)) [
  | inl nothing ↦ rw nothing (λ e. cc)
  | inr something ↦ elim (Bool-cases (ltb (length on + length value - length what) static_size)) [
    | inl fits ↦
        rw (something, fits)
          (λ e.
            ground
              (arith, length-append on (drop (length what) value), length-drop (length what) value))
    | inr large ↦ rw (something, large) (λ e. cc)
  ]
]

first_match-Bounded :
    (value : List ℕ) (pairs : List ShortenerPair) → Bounded (first_match value pairs)
unfolding first_match
first_match-Bounded value [] = λ e. cc
first_match-Bounded value (p ∷ pairs) =
    elim (Bool-cases (ltb (length value) (length p.search_for))) [
      | inl short ↦ rw (first_match, short) (first_match-Bounded value pairs)
      | inr long ↦ elim (Bool-cases (starts_with value p.search_for)) [
        | inl found ↦
            rw (first_match, long, found)
              (replaced-Bounded value p.search_for p.replace_on
                (starts_with-length value p.search_for found))
        | inr other ↦ rw (first_match, long, other) (first_match-Bounded value pairs)
      ]
    ]

shortener_pair_run-Bounded :
    (pairs : List ShortenerPair) (value : Placed)
    → Bounded value
    → Bounded (shortener_pair_run value pairs)
unfolding shortener_pair_run
shortener_pair_run-Bounded pairs value h = elim (Bool-cases (is_given value.place)) [
  | inl fresh ↦ rw (shortener_pair_run, fresh) (first_match-Bounded value.text pairs)
  | inr done ↦ rw (shortener_pair_run, done) h
]

-- Whatever the tables are, a text that the shortener puts in the static buffer of 256 bytes is at
-- most 255 bytes long, if that holds of the text that it is given.
pub shortener_run-Bounded :
    (table : Option (List ShortenerPair)) (m : List ShortenerPair) (value : Placed)
    → Bounded value
    → Bounded (shortener_run table m value)
unfolding shortener_run
shortener_run-Bounded none m value h = shortener_pair_run-Bounded m value h
shortener_run-Bounded (some pairs) m value h =
    shortener_pair_run-Bounded m (shortener_pair_run value pairs)
      (shortener_pair_run-Bounded pairs value h)

-- ===== src/Backend/Ring.antt =====
-- RingBufferBackend.cpp: the last records, in a list of strings.
pub mod Window
pub mod Memory
use logme.Prelude.{
  ℕ, ◌==◌, Option, none, some, List, [], ◌∷◌, ◌++◌, take, length, concat, ltb, if◌then◌else◌, add64,
  sub64,
}
use logme.Text.Trim.{c_str}

-- `memory_usage` is what the backend's tracker shows.
pub record RingBufferBackend : Type 0 where
  pub ring : List (List ℕ)
  pub max_items : ℕ
  pub memory_usage : ℕ

-- The bytes that an append is given; a length of -1 is `none`. No other negative length is
-- modelled, and no text of 2 ^ 31 bytes or more, whose length the cast to int changes.
abbrev pub given_bytes : List ℕ → Option ℕ → List ℕ
given_bytes str none = c_str str
given_bytes str (some nc) = take nc str

unfoldable pub join : RingBufferBackend → List ℕ
join b = concat b.ring

unfoldable pub apply_config : ℕ → RingBufferBackend → RingBufferBackend
apply_config max_items b = record b { max_items = max_items }

-- `capacity` is `std::string::capacity` of a string that was made of some bytes.
module _ (capacity : List ℕ → ℕ) where
  -- The loop of `Append`, on the strings and the usage of memory.
  unfoldable pub pop_excess : ℕ → List (List ℕ) → ℕ → List (List ℕ) × ℕ
  pop_excess max_items [] usage = ([], usage)
  pop_excess max_items (s ∷ ring) usage =
      let rest = pop_excess max_items ring (sub64 usage (capacity s)) in
      if ltb max_items (length (s ∷ ring)) then rest else (s ∷ ring, usage)

  unfoldable pub push_item : List ℕ → RingBufferBackend → RingBufferBackend
  unfolding pop_excess
  push_item s b =
      let (ring, usage) =
        pop_excess b.max_items (b.ring ++ s ∷ []) (add64 b.memory_usage (capacity s)) in
      record b { ring = ring; memory_usage = usage }

  unfoldable pub append_ring : List ℕ → Option ℕ → RingBufferBackend → RingBufferBackend
  unfolding push_item
  append_ring str nc b =
      if length (given_bytes str nc) == 0 then b else push_item (given_bytes str nc) b

  unfoldable pub release_all : List (List ℕ) → ℕ → ℕ
  release_all [] usage = usage
  release_all (s ∷ ring) usage = release_all ring (sub64 usage (capacity s))

  unfoldable pub clear_ring : RingBufferBackend → RingBufferBackend
  unfolding release_all
  clear_ring b = record b { ring = []; memory_usage = release_all b.ring b.memory_usage }

-- ===== src/Backend/Growing.antt =====
-- BufferBackend.cpp: the output in one vector of bytes, with a zero behind it.
pub mod Cutting
pub mod Trimming
pub mod Appending
use logme.Prelude.{
  ℕ, zero, suc, ◌+◌, ◌-◌, ◌*◌, ◌/◌, ◌==◌, Bool, true, false, not, ◌&&◌, Option, none, some, List,
  [], ◌∷◌, ◌++◌, take, length, ltb, leb, if◌then◌else◌, add64, sub64, u64_mod,
}
use mathlib.Core.Option
use logme.Text.Trim.{c_str}
use logme.Backend.Ring.{given_bytes}

pub data BufferBackendPolicy : Type 0 where
  stop_appending delete_oldest : BufferBackendPolicy

-- `capacity` is that of the vector; `memory_usage` is what the backend's tracker shows.
pub record BufferBackend : Type 0 where
  pub buffer : List ℕ
  pub capacity : ℕ
  pub max_size : ℕ
  pub policy : BufferBackendPolicy
  pub memory_usage : ℕ

-- The place of the terminating zero, which the next text overwrites.
abbrev pub end_of : List ℕ → ℕ
end_of buffer = length buffer - 1

-- `pos + nc + 1` for the text `s`.
abbrev pub needed : List ℕ → List ℕ → ℕ
needed buffer s = add64 (add64 (end_of buffer) (length s)) 1

unfoldable pub after_newline : List ℕ → Option (List ℕ)
after_newline [] = none
after_newline (c ∷ s) = if c == 10 then some s else after_newline s

-- One round of the loop that makes room.
unfoldable pub drop_line : List ℕ → List ℕ
unfolding after_newline
drop_line buffer = Option.get_or (after_newline buffer) []

-- The loop; each round but one on an empty buffer shortens it.
unfoldable pub make_room : ℕ → ℕ → List ℕ → List ℕ → List ℕ
unfolding drop_line
make_room zero max_size s buffer = buffer
make_room (suc fuel) max_size s buffer =
    let shorter = drop_line buffer in
    let rest = make_room fuel max_size s shorter in
    if ltb max_size (needed shorter s) then rest else shorter

-- `reserved` is the capacity of a vector after `reserve`.
module _ (reserved : ℕ → ℕ) where
  -- The test of the capacity and what depends on it.
  unfoldable pub ensure_capacity : ℕ → BufferBackend → BufferBackend
  ensure_capacity size b =
      if ltb b.capacity size
      then (let c = reserved (sub64 (add64 size 4096) 1 / 4096 * 4096) in
          record b {
            capacity = c;
            memory_usage =
                if ltb b.capacity c then add64 b.memory_usage (c - b.capacity) else b.memory_usage;
          })
      else b

  unfoldable pub store_text : List ℕ → BufferBackend → BufferBackend
  unfolding ensure_capacity
  store_text s b = record (ensure_capacity (needed b.buffer s) b) {
    buffer = take (end_of b.buffer) b.buffer ++ (s ++ 0 ∷ []);
  }

  abbrev pub is_limited : BufferBackend → Bool
  is_limited b = not (b.max_size == u64_mod - 1)

  unfoldable pub append_bounded : BufferBackendPolicy → List ℕ → BufferBackend → BufferBackend
  unfolding make_room store_text
  append_bounded BufferBackendPolicy.stop_appending s b = b
  append_bounded BufferBackendPolicy.delete_oldest s b =
      if ltb b.max_size (add64 (length s) 1)
      then b
      else store_text s
          (record b { buffer = make_room (suc (length b.buffer)) b.max_size s b.buffer })

  unfoldable pub append_text : List ℕ → BufferBackend → BufferBackend
  unfolding append_bounded store_text
  append_text s b =
      if length s == 0
      then b
      else if is_limited b && ltb b.max_size (needed b.buffer s)
      then append_bounded b.policy s b
      else store_text s b

  unfoldable pub append_buffer : List ℕ → Option ℕ → BufferBackend → BufferBackend
  unfolding append_text
  append_buffer str nc b = append_text (given_bytes str nc) b

  -- The overload for another backend.
  unfoldable pub append_backend : BufferBackend → BufferBackend → BufferBackend
  unfolding append_buffer
  append_backend other b = if length other.buffer == 0 then b else append_buffer other.buffer none b

  unfoldable pub clear_buffer : BufferBackend → BufferBackend
  clear_buffer b = record b { buffer = [] }

unfoldable pub configure_buffer : ℕ → BufferBackendPolicy → BufferBackend → BufferBackend
configure_buffer max_size policy b = record b { max_size = max_size; policy = policy }

-- ===== src/Tests/Memory.antt =====
-- Runs of RingBufferBackend.cpp and BufferBackend.cpp.
use logme.Prelude.{ℕ, ◌≡◌, refl, none, some, Option, List, [], ◌∷◌, ◌++◌, concat, arith, inr}
use logme.Backend.Ring.{RingBufferBackend, join, append_ring}
use logme.Backend.Ring.Window.{append_each, added, last_of, join-append_each}
use logme.Backend.Ring.Memory.{Tracked, unchanged, followed_by, append_call, Changes-Tracked}
use logme.Backend.Growing.{BufferBackend, BufferBackendPolicy}
use logme.Backend.Growing.Appending.{AppendSpec, append_text-Spec}
use logme.Backend.Growing as Growing

abbrev small_string : List ℕ → ℕ
small_string s = 15

abbrev ring : RingBufferBackend
ring = record { ring = []; max_items = 2; memory_usage = 0 }

abbrev calls : List (List ℕ × Option ℕ)
calls = (65 ∷ [], none) ∷ (66 ∷ [], some 1) ∷ (67 ∷ [], some 0) ∷ (68 ∷ [], none) ∷ []

join-append_each_example :
    ((append_each small_string calls ring).ring ≡ last_of 2 ([] ++ added calls))
    × (join (append_each small_string calls ring) ≡ concat (last_of 2 ([] ++ added calls)))
join-append_each_example = join-append_each small_string calls ring (omega arith)

Changes-Tracked_example :
    Tracked small_string (λ s. omega arith) (append_ring small_string (65 ∷ []) (some 1) ring)
Changes-Tracked_example =
    Changes-Tracked small_string (λ s. omega arith)
      (followed_by unchanged (append_call (65 ∷ []) (some 1) ring)) refl

abbrev growing : BufferBackend
growing = record {
  buffer = 65 ∷ 10 ∷ 66 ∷ 10 ∷ 0 ∷ [];
  capacity = 4096;
  max_size = 6;
  policy = BufferBackendPolicy.delete_oldest;
  memory_usage = 4096;
}

append_text-Spec_example :
    AppendSpec
      (λ n. n)
      (λ n. omega arith)
      (67 ∷ 10 ∷ [])
      growing
      (Growing.append_text (λ n. n) (67 ∷ 10 ∷ []) growing)
append_text-Spec_example =
    append_text-Spec (λ n. n) (λ n. omega arith) (67 ∷ 10 ∷ []) growing
      (record {
        ended = inr (65 ∷ 10 ∷ 66 ∷ 10 ∷ [], refl);
        within = omega arith;
        tracked = refl;
        bounded = λ _. omega arith;
      })
      (omega arith)

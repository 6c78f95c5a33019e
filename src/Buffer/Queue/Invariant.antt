-- ===== src/Buffer/Queue/Invariant.antt =====
-- The well-formedness of a queue, and that each change of its pool keeps it.
pub mod Frames
pub mod PoolKeeps
pub mod Moves
pub mod Put
pub mod AppendKeeps
pub mod PublishKeeps
pub mod OtherKeeps
use logme.Prelude.{
  ℕ, zero, suc, ◌+◌, ◌%◌, ◌≤◌, ◌<◌, ◌≡◌, ◌≢◌, refl, Bool, true, false, not, ◌==◌, Option, none,
  some, List, [], ◌∷◌, ◌++◌, All, All-append, length, length-append, u64_mod, arith,
}
use logme.Buffer.Data.{DataBuffer, Fits, reset}
use logme.Buffer.Queue.State.{Queue, Options}

abbrev pub is_nonempty {ℓ} : {A : Type ℓ} → List A → Bool
is_nonempty [] = false
is_nonempty (x ∷ xs) = true

module _ {C : Type 0} where
  -- What is asked of the options: sizes that a machine word holds, and a cache that hands over
  -- whole buffers.
  pub record Sound (o : Options C) : Type 0 where
    pub buffer_size : o.buffer_size < u64_mod
    pub max_total : o.max_total_buffers < u64_mod
    pub whole :
        (take : C → ℕ → Option DataBuffer × C)
        → o.take_cached_buffer ≡ some take
        → (c : C) (n : ℕ) (b : DataBuffer) → (take c n).0 ≡ some b
        → Fits b

  -- `held` counts the buffers that belong to the queue and are in none of its members: those that
  -- `TakeReady` handed out, and those that an operation in progress has in a local variable.
  pub record Inv (held : ℕ) (q : Queue C) : Type 0 where
    pub used : q.used_buffers_count ≡ (1 + length q.ready_list + held) % u64_mod
    pub total : q.total_buffers ≡ (1 + length q.ready_list + held + length q.free_list) % u64_mod
    pub capped :
        q.options.max_total_buffers ≢ 0
        → 1 + length q.ready_list + held + length q.free_list ≤ q.options.max_total_buffers
    pub current_fits : Fits q.current
    pub free_fits : All Fits q.free_list
    pub ready_fits : All Fits q.ready_list
    pub ready_filled : All (λ (b : DataBuffer). b.size ≢ 0) q.ready_list
    pub flag : q.has_current_data_flag ≡ not (q.current.size == 0)
    pub time : q.current_first_write_time ≡ q.current.first_write_time
    pub signal : q.signaled ≡ is_nonempty q.ready_list

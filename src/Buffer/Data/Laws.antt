-- ===== src/Buffer/Data/Laws.antt =====
-- What the operations on one buffer do to the bytes that a reader sees.
use logme.Prelude.{
  ℕ, ◌+◌, ◌≤◌, ◌<◌, ◌≡◌, refl, ap, ◌∙◌, sym, true, Option, List, [], ◌++◌, length, take, drop, leb,
  leb→le, u64_mod, add64, arith, length-append, length-take, length-drop, length-replicate,
  take-append, append_assoc,
}
use logme.Buffer.Data.{DataBuffer, new_buffer, reset, can_append, append, contents, Fits}

pub new_buffer-Fits : (a c : ℕ) (t : Option ℕ) → c < u64_mod → Fits (new_buffer a c t)
unfolding new_buffer
new_buffer-Fits a c t h = record {
  allocated = length-replicate c 0;
  within = omega arith;
  machine = h;
}

pub reset-Fits : (b : DataBuffer) → Fits b → Fits (reset b)
unfolding reset
reset-Fits b f = record { allocated = f.allocated; within = omega arith; machine = f.machine }

pub can_append_iff :
    (b : DataBuffer) (cb : ℕ) → Fits b → can_append b cb ≡ leb (b.size + cb) b.capacity
unfolding can_append
can_append_iff b cb f = ground arith

pub append-Fits :
    (b : DataBuffer) (p : List ℕ) → Fits b → can_append b (length p) ≡ true → Fits (append b p)
unfolding append
append-Fits b p f h =
    let room : b.size + length p ≤ b.capacity =
      leb→le _ _ (sym (can_append_iff b (length p) f) ∙ h) in
    record {
      allocated = omega (
        arith,
        length-append (take b.size b.bytes) (p ++ drop (b.size + length p) b.bytes),
        length-append p (drop (b.size + length p) b.bytes),
        length-take b.size b.bytes,
        length-drop (b.size + length p) b.bytes,
      );
      within = omega arith;
      machine = f.machine;
    }

-- An append adds its bytes behind those in use, which it leaves alone.
pub contents-append :
    (b : DataBuffer) (p : List ℕ)
    → Fits b
    → can_append b (length p) ≡ true
    → contents (append b p) ≡ contents b ++ p
unfolding append contents
contents-append b p f h =
    let room : b.size + length p ≤ b.capacity =
      leb→le _ _ (sym (can_append_iff b (length p) f) ∙ h) in
    let front = take b.size b.bytes in
    let rest = drop (b.size + length p) b.bytes in
    ap (take (add64 b.size (length p))) (sym (append_assoc front p rest))
    ∙ take-append (front ++ p) rest (add64 b.size (length p))
        (omega (arith, length-append front p, length-take b.size b.bytes))

pub contents-reset : (b : DataBuffer) → contents (reset b) ≡ []
unfolding contents reset
contents-reset b = refl

pub contents_of_empty : (b : DataBuffer) → b.size ≡ 0 → contents b ≡ []
unfolding contents
contents_of_empty b h = ap (λ n. take n b.bytes) h

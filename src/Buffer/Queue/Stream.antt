-- ===== src/Buffer/Queue/Stream.antt =====
-- The abstract view of a queue: the bytes that it holds, in the order in which they are to be
-- written.
use logme.Prelude.{◌≡◌, refl, ◌∙◌, sym, ap, ℕ, List, [], ◌∷◌, ◌++◌, append_assoc, append-nil}
use logme.Buffer.Data.{DataBuffer, contents}
use logme.Buffer.Queue.State.{Queue}

abbrev pub bytes_of : List DataBuffer → List ℕ
bytes_of [] = []
bytes_of (b ∷ bs) = contents b ++ bytes_of bs

abbrev pub stream : {C : Type 0} → Queue C → List ℕ
stream q = bytes_of q.ready_list ++ contents q.current

pub bytes_of-append : (bs cs : List DataBuffer) → bytes_of (bs ++ cs) ≡ bytes_of bs ++ bytes_of cs
bytes_of-append [] cs = refl
bytes_of-append (b ∷ bs) cs =
    ap (◌++◌ (contents b)) (bytes_of-append bs cs)
    ∙ sym (append_assoc (contents b) (bytes_of bs) (bytes_of cs))

pub bytes_of-snoc :
    (bs : List DataBuffer) (b : DataBuffer) → bytes_of (bs ++ b ∷ []) ≡ bytes_of bs ++ contents b
bytes_of-snoc bs b = bytes_of-append bs (b ∷ []) ∙ ap (◌++◌ (bytes_of bs)) (append-nil (contents b))

-- ===== src/Driver/Legal.antt =====
-- The traces that a client may ask for: an index is allocated when it is not, and freed when it is.
use orga_del_computador.Base.{
  ℕ, ◌^◌, ◌<◌, ◌≡◌, Bool, true, false, ◌||◌, List, [], ◌∷◌, ◌==◌, if◌then◌else◌,
}
use orga_del_computador.Driver.Trace.{Request, alloc, free, realloc, TraceOp}

abbrev pub has_index : ℕ → List ℕ → Bool
has_index i [] = false
has_index i (j ∷ js) = (j == i) || has_index i js

unfoldable pub drop_index : ℕ → List ℕ → List ℕ
drop_index i [] = []
drop_index i (j ∷ js) = if j == i then js else j ∷ drop_index i js

-- The same for indexes with the sizes that were asked for.
unfoldable pub drop_sized : ℕ → List (ℕ × ℕ) → List (ℕ × ℕ)
drop_sized i [] = []
drop_sized i ((j, size) ∷ xs) = if j == i then xs else (j, size) ∷ drop_sized i xs

-- A request on the allocated indexes `js`: a size that an `int` holds, and no `realloc`.
abbrev pub LegalOp : Request → ℕ → ℕ → List ℕ → Type 0
LegalOp alloc i size js = (has_index i js ≡ false) × (0 < size) × (size < 2 ^ 31)
LegalOp free i size js = has_index i js ≡ true
LegalOp realloc i size js = ⊥

abbrev pub indexes_after : Request → ℕ → List ℕ → List ℕ
indexes_after alloc i js = i ∷ js
indexes_after free i js = drop_index i js
indexes_after realloc i js = js

abbrev pub IsLegal : List ℕ → List TraceOp → Type 0
IsLegal js [] = Unit {0}
IsLegal js (op ∷ ops) =
    LegalOp op.type op.index op.size js × IsLegal (indexes_after op.type op.index js) ops

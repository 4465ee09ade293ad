-- ===== src/Client/Session.antt =====
-- The heaps that a sequence of calls of `mm_init`, `mm_malloc` and `mm_free` leads to. The client
-- frees what it holds. Calls of `mm_realloc` are left out, since it gives back a block that is too
-- small (the finding on `is_big_enough`).
use orga_del_computador.Base.{
  ℕ, zero, suc, ◌+◌, ◌^◌, ◌<◌, ◌≡◌, refl, sym, ◌∙◌, arith, true, none, some, Option, List, [], ◌∷◌,
  ◌++◌, inl, inr, ap,
}
use mathlib.Core.Path.{subst}
use mathlib.Core.Option.{some_inj}
use orga_del_computador.Mm.Run.{Run, ok, exit, out_of_fuel}
use orga_del_computador.Mm.Heap.{Heap}
use orga_del_computador.Mm.Api.{mm_init, mm_malloc, mm_free}
use orga_del_computador.Mm.Api.Init.{IsEmpty, mm_init-Holds}
use orga_del_computador.Mm.Api.Sizes.{adjusted-IsBlockSize}
use orga_del_computador.Mm.Api.Holds.{Holds, mm_free-Returns}
use orga_del_computador.Mm.Api.Answers.{mm_malloc-Success}
use orga_del_computador.Driver.OnMm.Insertion.{Inserts-middle, Inserts-split}
use orga_del_computador.Driver.OnMm.Matches.{Matches, Matches-remove}

-- The heap `h` and the client's payloads, by address and size asked for, the latest first.
pub data Session : Heap → List (ℕ × ℕ) → Type 0 where
  starts : (h : Heap) {h' : Heap} → IsEmpty h.sim → mm_init h ≡ (true, h') → Session h' []
  mallocs :
      (h : Heap) {h' : Heap} {xs : List (ℕ × ℕ)} (size ptr : ℕ)
      → Session h xs
      → size + 31 < 2 ^ 32
      → mm_malloc h size ≡ ok (some ptr, h')
      → Session h' ((ptr, size) ∷ xs)
  refuses :
      (h : Heap) {h' : Heap} {xs : List (ℕ × ℕ)} (size : ℕ)
      → Session h xs
      → size + 31 < 2 ^ 32
      → mm_malloc h size ≡ ok (none, h')
      → Session h' xs
  frees :
      (h : Heap) {h' : Heap} (before : List (ℕ × ℕ)) (ptr size : ℕ) (after : List (ℕ × ℕ))
      → Session h (before ++ ((ptr, size) ∷ after))
      → mm_free h ptr ≡ ok h'
      → Session h' (before ++ after)

-- The heap is as the contract says, with a block for each payload of the client and no other.
pub record Serves (h : Heap) (xs : List (ℕ × ℕ)) : Type 0 where
  pub blocks : List (ℕ × ℕ)
  pub held : Holds h blocks
  pub matched : Matches xs blocks

pub ok_inj : {A : Type 0} {a b : A} → ok a ≡ ok b → a ≡ b
ok_inj {A} {a} {b} e = ap value e
  where
    value : Run A → A
    value (ok c) = c
    value exit = a
    value out_of_fuel = a

-- Only a request of some bytes is served.
mm_malloc-zero :
    (h h' : Heap) (found : Option ℕ) → mm_malloc h 0 ≡ ok (found, h') → (found ≡ none) × (h ≡ h')
unfolding mm_malloc
mm_malloc-zero h h' found e =
    let f = ok_inj e in
    (sym (ap (λ (x : Option ℕ × Heap). x.0) f), ap (λ (x : Option ℕ × Heap). x.1) f)

mallocs-Serves :
    (h h' : Heap) (xs : List (ℕ × ℕ)) (size ptr : ℕ)
    → Serves h xs
    → size + 31 < 2 ^ 32
    → mm_malloc h size ≡ ok (some ptr, h')
    → Serves h' ((ptr, size) ∷ xs)
mallocs-Serves h h' xs zero ptr v small e = let (f, g) = mm_malloc-zero h h' (some ptr) e in cc
mallocs-Serves h h' xs (suc n) ptr v small e =
    elim (mm_malloc-Success h v.blocks (suc n) (omega arith) small v.held) [
      | inl (q, h1, f, a) ↦
          let g = ok_inj (sym f ∙ e) in
          let place : q ≡ ptr = some_inj.0 (ap (λ (x : Option ℕ × Heap). x.0) g) in
          let same : h1 ≡ h' = ap (λ (x : Option ℕ × Heap). x.1) g in
          subst (λ k. Serves k ((ptr, suc n) ∷ xs)) same
            (subst (λ z. Serves h1 ((z, suc n) ∷ xs)) place
              (record {
                blocks = a.before ++ ((q, a.size) ∷ a.after);
                held = a.returns.holds;
                matched = (
                  a.size,
                  a.before ++ a.after,
                  omega (arith, a.enough, (adjusted-IsBlockSize (suc n) small).room),
                  Inserts-middle (q, a.size) a.before a.after,
                  subst (Matches xs) a.split v.matched,
                );
              }))
      | inr (f, full) ↦ let g = ok_inj (sym f ∙ e) in cc
    ]

refuses-Serves :
    (h h' : Heap) (xs : List (ℕ × ℕ)) (size : ℕ)
    → Serves h xs
    → size + 31 < 2 ^ 32
    → mm_malloc h size ≡ ok (none, h')
    → Serves h' xs
refuses-Serves h h' xs zero v small e =
    let (f, g) = mm_malloc-zero h h' none e in subst (λ k. Serves k xs) g v
refuses-Serves h h' xs (suc n) v small e =
    elim (mm_malloc-Success h v.blocks (suc n) (omega arith) small v.held) [
      | inl (q, h1, f, a) ↦ let g = ok_inj (sym f ∙ e) in cc
      | inr (f, full) ↦
          subst (λ k. Serves k xs) (ap (λ (x : Option ℕ × Heap). x.1) (ok_inj (sym f ∙ e))) v
    ]

-- A free of what the client holds, with what it leaves.
pub frees-Serves :
    (h : Heap) (before : List (ℕ × ℕ)) (ptr size : ℕ) (after : List (ℕ × ℕ))
    → Serves h (before ++ ((ptr, size) ∷ after))
    → (h' : Heap) × (mm_free h ptr ≡ ok h')
      × Serves h' (before ++ after)
      × (h'.heap_listp ≡ h.heap_listp)
frees-Serves h before ptr size after v =
    let (s, rest, i, matched) = Matches-remove before ptr size after v.blocks v.matched in
    let (left, right, split, whole) = Inserts-split (ptr, s) rest v.blocks i in
    let (h', e, r) = mm_free-Returns h left ptr s right (subst (Holds h) whole v.held) in
    (
      h',
      e,
      record {
        blocks = left ++ right;
        held = r.holds;
        matched = subst (Matches (before ++ after)) split matched;
      },
      r.list_start,
    )

-- After any calls of `mm_init`, `mm_malloc` with requests below 2^32 - 31 bytes and `mm_free` of
-- what the client holds, in whatever order, the heap is well formed with no two free blocks side
-- by side, and its used blocks are one for each payload of the client, with room for it and two
-- tags.
pub Session-Serves : {h : Heap} {xs : List (ℕ × ℕ)} → Session h xs → Serves h xs
Session-Serves (starts h {h'} empty e) =
    let (h1, f, held) = mm_init-Holds h empty in
    record {
      blocks = [];
      held = subst (λ k. Holds k []) (ap (λ x. x.1) (sym f ∙ e)) held;
      matched = refl;
    }
Session-Serves (mallocs h {h'} {xs} size ptr s small e) =
    mallocs-Serves h h' xs size ptr (Session-Serves s) small e
Session-Serves (refuses h {h'} {xs} size s small e) =
    refuses-Serves h h' xs size (Session-Serves s) small e
Session-Serves (frees h {h'} before ptr size after s e) =
    let (h1, f, v, at) = frees-Serves h before ptr size after (Session-Serves s) in
    subst (λ k. Serves k (before ++ after)) (ok_inj (sym f ∙ e)) v

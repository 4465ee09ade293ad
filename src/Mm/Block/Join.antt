-- ===== src/Mm/Block/Join.antt =====
-- `coalesce` on the heap: the block at the place and its free neighbours become one.
use orga_del_computador.Base.{
  ℕ, ◌+◌, ◌-◌, ◌^◌, ◌≤◌, ◌<◌, ◌≡◌, refl, sym, ◌∙◌, arith, true, false, ap, List, [], ◌∷◌, inl, inr,
  Bool-cases, if◌then◌else◌,
}
use mathlib.Core.Path.{subst, subst₂}
use orga_del_computador.Mm.Words.{Words, put, get_alloc}
use orga_del_computador.Mm.Words.Laws.{get_alloc-end, get_alloc-tag}
use orga_del_computador.Mm.Layout.{
  Block, block, digit, total, Fits, BlockAt, LeftOf, RightOf, free_size, free_rest,
}
use orga_del_computador.Mm.Layout.Frame.{SameOutside, LeftOf-frame, RightOf-frame}
use orga_del_computador.Mm.Block.{coalesce}
use orga_del_computador.Mm.Block.Tags.{
  put_comm, tagged-BlockAt, tagged_same, two_tags-BlockAt, two_tags_same,
}
use orga_del_computador.Mm.Block.Coalesce.{
  coalesce-alone, coalesce-left, coalesce-right, coalesce-both,
}

-- A result of `coalesce` between `ls` and `rs` at a free block of `s` bytes.
pub record Joined (m : Words) (base : ℕ) (ls : List Block) (s : ℕ) (rs : List Block) (r : ℕ × Words)
    : Type 0 where
  pub address : r.0 ≡ base + total (free_rest ls)
  pub left : LeftOf r.1 base (free_rest ls)
  pub here : BlockAt r.1 r.0 (block (free_size ls + s + free_size rs) false)
  pub right : RightOf r.1 (r.0 + (free_size ls + s + free_size rs)) (free_rest rs)
  pub same : SameOutside r.0 (r.0 + (free_size ls + s + free_size rs)) m r.1

-- A free block of `s` bytes at `p` in a memory that differs from `m` there only.
record Merged (m : Words) (p s : ℕ) (m' : Words) : Type 0 where
  here : BlockAt m' p (block s false)
  same : SameOutside p (p + s) m m'

-- The record from a memory, the blocks that remain and the size, given up to equations.
Joined-of :
    {m m' : Words} {base s p n : ℕ} {ls rs ls' rs' : List Block} {r : ℕ × Words}
    → r ≡ (p, m')
    → ls' ≡ free_rest ls
    → rs' ≡ free_rest rs
    → n ≡ free_size ls + s + free_size rs
    → 16 ≤ base
    → p ≡ base + total ls'
    → Merged m p n m'
    → LeftOf m base ls'
    → RightOf m (p + n) rs'
    → Joined m base ls s rs r
Joined-of {m} {m'} {base} {s} {p} {n} {ls} {rs} {ls'} {rs'} e el er en low ep x left right =
    subst (Joined m base ls s rs) (sym e) (record {
      address = ep ∙ ap (λ l. base + total l) el;
      left =
          subst (LeftOf m' base) el
            (LeftOf-frame base ls' low (λ a h. x.same.0 a (omega arith)) left);
      here = subst (λ k. BlockAt m' p (block k false)) en x.here;
      right =
          subst₂ (λ k l. RightOf m' (p + k) l) en er
            (RightOf-frame (p + n) rs' (omega arith) x.same.1 right);
      same = subst (λ k. SameOutside p (p + k) m m') en x.same;
    })

-- The two writes of a free block's tags, in either order.
Merged-tags :
    (m : Words) (p v : ℕ)
    → 16 ≤ p
    → Fits (block v false)
    → Merged m p v (put (put m (p - 8) v) (p + v - 16) v)
Merged-tags m p v low f =
    subst (λ w. Merged m p v (put (put m (p - 8) w) (p + v - 16) w)) e
      (record {
        here = two_tags-BlockAt m p (block v false) low f;
        same = two_tags_same m p (block v false) low f;
      })
  where
    e : v + 0 ≡ v
    e = omega arith

Merged-tags_swapped :
    (m : Words) (p v : ℕ)
    → 16 ≤ p
    → Fits (block v false)
    → Merged m p v (put (put m (p + v - 16) v) (p - 8) v)
Merged-tags_swapped m p v low f =
    rw (put_comm m (p + v - 16) (p - 8) v v (ground (arith, f.room))) (Merged-tags m p v low f)

abbrev Goal : Words → ℕ → Block → List Block → Block → List Block → Type 0
Goal m base l ls b rs = Joined m base (l ∷ ls) b.size rs (coalesce m (base + total ls + l.size))

module _ (m : Words) (base : ℕ) (l : Block) (ls : List Block) (b : Block) (low : 16 ≤ base)
    (atl : BlockAt m (base + total ls) l) (left : LeftOf m base ls)
    (atb : BlockAt m (base + total ls + l.size) b) where
  module _ (rs : List Block) (er : rs ≡ free_rest rs) (es : 0 ≡ free_size rs)
      (un : get_alloc m (base + total ls + l.size + b.size - 8) ≡ 1)
      (right : RightOf m (base + total ls + l.size + b.size) rs) where
    join-alone : l.used ≡ true → b.used ≡ false → Goal m base l ls b rs
    join-alone ul free =
        Joined-of (coalesce-alone m (base + total ls) l b (omega arith) atl atb ul un)
          (ap (λ u. if u then l ∷ ls else ls) (sym ul)) er (ground arith) low (omega arith)
          (record {
            here = record {
              header = ground arith;
              footer = ground arith;
              fits = record {
                aligned = atb.fits.aligned;
                room = atb.fits.room;
                bounded = atb.fits.bounded;
              };
            };
            same = (λ a h. refl, λ a h. refl);
          })
          (atl, left) right

    join-left : l.used ≡ false → l.size + b.size < 2 ^ 32 → Goal m base l ls b rs
    join-left ul small =
        Joined-of (coalesce-left m (base + total ls) l b (omega arith) atl atb ul un small)
          (ap (λ u. if u then l ∷ ls else ls) (sym ul)) er (ground arith) low refl merged left
          (subst (λ p. RightOf m p rs) e right)
      where
        f : Fits (block (l.size + b.size) false)
        f = record { aligned = omega arith; room = omega arith; bounded = small }

        e : base + total ls + l.size + b.size ≡ base + total ls + (l.size + b.size)
        e = omega arith

        merged : Merged m (base + total ls) (l.size + b.size) (
            put
              (put m (base + total ls + l.size + b.size - 16) (l.size + b.size))
              (base + total ls - 8)
              (l.size + b.size))
        merged = rw e (Merged-tags_swapped m (base + total ls) (l.size + b.size) (omega arith) f)

  module _ (c : Block) (rs : List Block) (uc : c.used ≡ false)
      (atc : BlockAt m (base + total ls + l.size + b.size) c)
      (right : RightOf m (base + total ls + l.size + b.size + c.size) rs) where
    join-right : l.used ≡ true → b.size + c.size < 2 ^ 32 → Goal m base l ls b (c ∷ rs)
    join-right ul small =
        Joined-of (coalesce-right m (base + total ls) l b (omega arith) atl atb c uc atc ul small)
          (ap (λ u. if u then l ∷ ls else ls) (sym ul))
          (ap (λ u. if u then c ∷ rs else rs) (sym uc)) (ground arith) low (omega arith)
          (record {
            here = tagged-BlockAt m _ (block (b.size + c.size) false) (omega arith) f;
            same = tagged_same m _ (block (b.size + c.size) false) (omega arith) f;
          })
          (atl, left) (subst (λ p. RightOf m p rs) (omega arith) right)
      where
        f : Fits (block (b.size + c.size) false)
        f = record { aligned = omega arith; room = omega arith; bounded = small }

    join-both : l.used ≡ false → l.size + b.size + c.size < 2 ^ 32 → Goal m base l ls b (c ∷ rs)
    join-both ul small =
        Joined-of (coalesce-both m (base + total ls) l b (omega arith) atl atb c uc atc ul small)
          (ap (λ u. if u then l ∷ ls else ls) (sym ul))
          (ap (λ u. if u then c ∷ rs else rs) (sym uc)) (ground arith) low refl merged left
          (subst (λ p. RightOf m p rs) e right)
      where
        f : Fits (block (l.size + b.size + c.size) false)
        f = record { aligned = omega arith; room = omega arith; bounded = small }

        e :
            base + total ls + l.size + b.size + c.size
            ≡ base + total ls + (l.size + b.size + c.size)
        e = omega arith

        merged : Merged m (base + total ls) (l.size + b.size + c.size) (
            put
              (put m (base + total ls - 8) (l.size + b.size + c.size))
              (base + total ls + l.size + b.size + c.size - 16)
              (l.size + b.size + c.size))
        merged = rw e (Merged-tags m (base + total ls) (l.size + b.size + c.size) (omega arith) f)

  -- On a list of blocks with boundary tags `coalesce` at a free block returns the address of one
  -- free block that spans it and its free neighbours, in all four cases, keeps the tags of the
  -- blocks on both sides and writes nowhere else.
  pub coalesce-Joined :
      (rs : List Block)
      → b.used ≡ false
      → RightOf m (base + total ls + l.size + b.size) rs
      → l.size + b.size + total rs < 2 ^ 32
      → Joined m base (l ∷ ls) b.size rs (coalesce m (base + total ls + l.size))
  coalesce-Joined [] free e small = elim (Bool-cases l.used) [
    | inl ul ↦ join-alone [] refl refl (get_alloc-end m _ e) e ul free
    | inr ul ↦ join-left [] refl refl (get_alloc-end m _ e) e ul (omega arith)
  ]
  coalesce-Joined (c ∷ rs) free (atc, right) small = elim (Bool-cases l.used) [
    | inl ul ↦ elim (Bool-cases c.used) [
      | inl uc ↦
          join-alone (c ∷ rs) (ap (λ u. if u then c ∷ rs else rs) (sym uc)) (ground arith)
            (get_alloc-tag m _ c atc.header atc.fits ∙ ap digit uc) (atc, right) ul free
      | inr uc ↦ join-right c rs uc atc right ul (omega arith)
    ]
    | inr ul ↦ elim (Bool-cases c.used) [
      | inl uc ↦
          join-left (c ∷ rs) (ap (λ u. if u then c ∷ rs else rs) (sym uc)) (ground arith)
            (get_alloc-tag m _ c atc.header atc.fits ∙ ap digit uc) (atc, right) ul (omega arith)
      | inr uc ↦ join-both c rs uc atc right ul (omega arith)
    ]
  ]

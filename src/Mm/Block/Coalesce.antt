-- ===== src/Mm/Block/Coalesce.antt =====
-- `coalesce` in its four cases: a block `b` behind a block `l`, and before the epilogue or a block
-- `c`. Each lemma says which memory it leaves.
use orga_del_computador.Base.{
  ℕ, ◌+◌, ◌-◌, ◌%◌, ◌^◌, ◌≤◌, ◌<◌, ◌≡◌, refl, ◌∙◌, arith, Bool, true, false, ap, u32, u64,
}
use orga_del_computador.Mm.Words.{
  Words, pack, put, get_header, get_footer, get_alloc, get_previous_block, get_next_block,
}
use orga_del_computador.Mm.Words.Laws.{
  pack-tag, footer-eq, footer_of_header, previous-eq, footer_alloc, header_size, next-eq,
  header_alloc, previous_of_footer, next_of_header, footer_size,
}
use orga_del_computador.Mm.Layout.{Block, digit, BlockAt}
use orga_del_computador.Mm.Block.{coalesce}
use orga_del_computador.Mm.Block.Tags.{put-ne, tagged}

pack_free : (s : ℕ) → s % 16 ≡ 0 → s < 2 ^ 32 → pack s 0 ≡ s
pack_free s h k = pack-tag s false h k ∙ omega arith

module _ (m : Words) (q : ℕ) (l b : Block) (low : 16 ≤ q) (atl : BlockAt m q l)
    (atb : BlockAt m (q + l.size) b) where
  previous_alloc :
      (u : Bool)
      → l.used ≡ u
      → get_alloc m (get_footer m (get_previous_block m (q + l.size))) ≡ digit u
  previous_alloc u e = rw (previous-eq m q l atl) (footer_alloc m q l atl ∙ ap digit e)

  next_alloc :
      (u : Bool)
      → get_alloc m (q + l.size + b.size - 8) ≡ digit u
      → get_alloc m (get_header (get_next_block m (q + l.size))) ≡ digit u
  unfolding get_header
  next_alloc u e = rw (next-eq m (q + l.size) b atb) e

  -- `l` is still found from its end in a memory that has its footer.
  before :
      (m' : Words)
      → m' (q + l.size - 16) ≡ m (q + l.size - 16)
      → get_previous_block m' (q + l.size) ≡ q
  before m' e = previous_of_footer m' q l (e ∙ atl.footer) atl.fits

  -- Both neighbours in use.
  pub coalesce-alone :
      l.used ≡ true
      → get_alloc m (q + l.size + b.size - 8) ≡ 1
      → coalesce m (q + l.size) ≡ (q + l.size, m)
  unfolding coalesce
  coalesce-alone ul un = rw (previous_alloc true ul, next_alloc true un)

  -- A free block `l` to the left only.
  pub coalesce-left :
      l.used ≡ false
      → get_alloc m (q + l.size + b.size - 8) ≡ 1
      → l.size + b.size < 2 ^ 32
      → coalesce m (q + l.size)
        ≡ (q, put (put m (q + l.size + b.size - 16) (l.size + b.size)) (q - 8) (l.size + b.size))
  unfolding coalesce
  coalesce-left ul un small =
      rw
        (
          previous_alloc false ul,
          next_alloc true un,
          previous-eq m q l atl,
          header_size m (q + l.size) b atb,
          header_size m q l atl,
          sum,
          pack_free (l.size + b.size) (omega arith) small,
          footer-eq m (q + l.size) b atb,
          before (put m (q + l.size + b.size - 16) v) (put-ne m _ v _ (omega arith)),
          before (put (put m (q + l.size + b.size - 16) v) (get_header q) v)
              (unfold get_header in put-ne _ _ v _ (omega arith) ∙ put-ne m _ v _ (omega arith)),
        )
        (unfold get_header in refl)
    where
      v : ℕ
      v = l.size + b.size

      sum : u64 (b.size + l.size) ≡ l.size + b.size
      sum = omega arith

  module _ (c : Block) (uc : c.used ≡ false) (atc : BlockAt m (q + l.size + b.size) c) where
    next_free : get_alloc m (get_header (get_next_block m (q + l.size))) ≡ 0
    next_free = rw (next-eq m (q + l.size) b atb) (header_alloc m _ c atc ∙ ap digit uc)

    -- A free block `c` to the right only.
    pub coalesce-right :
        l.used ≡ true
        → b.size + c.size < 2 ^ 32
        → coalesce m (q + l.size) ≡ (q + l.size, tagged m (q + l.size) (b.size + c.size) false)
    unfolding coalesce
    coalesce-right ul small = rw (
      previous_alloc true ul,
      next_free,
      next-eq m (q + l.size) b atb,
      header_size m (q + l.size) b atb,
      header_size m (q + l.size + b.size) c atc,
      sum,
    )
      where
        sum : u64 (b.size + c.size) ≡ b.size + c.size
        sum = omega arith

    -- Free blocks on both sides.
    pub coalesce-both :
        l.used ≡ false
        → l.size + b.size + c.size < 2 ^ 32
        → coalesce m (q + l.size) ≡ (
          q,
          put
              (put m (q - 8) (l.size + b.size + c.size))
              (q + l.size + b.size + c.size - 16)
              (l.size + b.size + c.size),
        )
    unfolding coalesce get_header
    coalesce-both ul small =
        rw
          (
            previous_alloc false ul,
            next_free,
            next-eq m (q + l.size) b atb,
            previous-eq m q l atl,
            header_size m q l atl,
            header_size m (q + l.size) b atb,
            footer_size m (q + l.size + b.size) c atc,
            sum,
            pack_free v (omega arith) small,
            next_of_header m1 (q + l.size) b (put-ne m _ v _ (omega arith) ∙ atb.header) atb.fits,
            footer_of_header m1 (q + l.size + b.size) c (put-ne m _ v _ (omega arith) ∙ atc.header)
                atc.fits,
            before (put m1 (q + l.size + b.size + c.size - 16) v)
                (put-ne _ _ v _ (omega arith) ∙ put-ne m _ v _ (omega arith)),
          )
          (unfold get_header in refl)
      where
        v : ℕ
        v = l.size + b.size + c.size

        m1 : Words
        m1 = put m (get_header q) v

        sum : u64 (b.size + u32 (l.size + c.size)) ≡ v
        sum = omega arith

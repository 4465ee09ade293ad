-- ===== src/Mm/Block/Place.antt =====
-- `place` at a free block that is large enough: the block becomes used, and what is left over, if it
-- is 32 bytes or more, a free block behind it.
use orga_del_computador.Base.{
  ℕ, ◌+◌, ◌-◌, ◌%◌, ◌^◌, ◌≤◌, ◌<◌, ◌≡◌, sym, ◌∙◌, arith, true, false, ap, List, ◌∷◌, inl, inr,
  Bool-cases, if◌then◌else◌, leb, leb→le, le→leb, lt→leb, u64,
}
use mathlib.Core.Path.{subst, subst₂}
use orga_del_computador.Mm.Words.{Words}
use orga_del_computador.Mm.Words.Laws.{header_size, next-eq}
use orga_del_computador.Mm.Layout.{Block, block, Fits, BlockAt, RightOf}
use orga_del_computador.Mm.Layout.Frame.{SameOutside, RightOf-frame}
use orga_del_computador.Mm.Block.{place}
use orga_del_computador.Mm.Block.Tags.{tagged, tagged-BlockAt, tagged_same}

-- The blocks that an allocation of `asize` bytes makes of the block `b`.
abbrev pub placed : ℕ → Block → List Block → List Block
placed asize b rs =
    if leb 32 (b.size - asize)
    then block asize true ∷ block (b.size - asize) false ∷ rs
    else block b.size true ∷ rs

module _ (m : Words) (p asize : ℕ) (b : Block) (rs : List Block) (low : 16 ≤ p)
    (units : asize % 16 ≡ 0) (room : 16 ≤ asize) (enough : asize ≤ b.size) (at : BlockAt m p b)
    (right : RightOf m (p + b.size) rs) where
  rest_size : u64 (b.size + 2 ^ 64 - asize) ≡ b.size - asize
  rest_size = omega arith

  front-Fits : Fits (block asize true)
  front-Fits = record { aligned = units; room = room; bounded = omega arith }

  place-split :
      32 ≤ b.size - asize
      → place m p asize ≡ tagged (tagged m p asize true) (p + asize) (b.size - asize) false
  unfolding place
  place-split h = rw (
    header_size m p b at,
    rest_size,
    le→leb 32 _ h,
    next-eq (tagged m p asize true) p (block asize true)
        (tagged-BlockAt m p (block asize true) low front-Fits),
  )

  place-whole : b.size - asize < 32 → place m p asize ≡ tagged m p b.size true
  unfolding place
  place-whole h = rw (header_size m p b at, rest_size, lt→leb 32 _ h)

  -- `place` at a block that is large enough leaves a used block of the asked size and a free one
  -- with the rest if the rest has 32 bytes or more, else one used block, keeps the blocks behind
  -- it and writes nothing outside the block.
  pub place-RightOf :
      RightOf (place m p asize) p (placed asize b rs)
      × SameOutside p (p + b.size) m (place m p asize)
  place-RightOf = elim (Bool-cases (leb 32 (b.size - asize))) [
    | inl h ↦
        let more : 32 ≤ b.size - asize = leb→le 32 _ h in
        let back : Fits (block (b.size - asize) false) = record {
          aligned = omega arith;
          room = omega arith;
          bounded = omega arith;
        } in
        let m1 : Words = tagged m p asize true in
        let m2 : Words = tagged m1 (p + asize) (b.size - asize) false in
        let here : BlockAt m1 p (block asize true) = tagged-BlockAt m p _ low front-Fits in
        let there : BlockAt m2 (p + asize) (block (b.size - asize) false) =
          tagged-BlockAt m1 (p + asize) _ (omega arith) back in
        let same1 : SameOutside p (p + asize) m m1 = tagged_same m p _ low front-Fits in
        let same2 : SameOutside (p + asize) (p + asize + (b.size - asize)) m1 m2 =
          tagged_same m1 (p + asize) _ (omega arith) back in
        let same : SameOutside p (p + b.size) m m2 = (
          λ a below. same2.0 a (omega arith) ∙ same1.0 a (omega arith),
          λ a from. same2.1 a (omega arith) ∙ same1.1 a (omega arith),
        ) in
        outcome (place-split more) (ap (λ u. if u then split else whole) (sym h)) (
          (
            record {
              header = same2.0 (p - 8) (omega arith) ∙ here.header;
              footer = same2.0 (p + asize - 16) (omega arith) ∙ here.footer;
              fits = here.fits;
            },
            (
              there,
              subst (λ e. RightOf m2 e rs) (omega arith)
                  (RightOf-frame (p + b.size) rs (omega arith) same.1 right),
            ),
          ),
          same,
        )
    | inr h ↦
        let less : b.size - asize < 32 = ground arith in
        let fits : Fits (block b.size true) = record {
          aligned = omega arith;
          room = omega arith;
          bounded = omega arith;
        } in
        let same : SameOutside p (p + b.size) m (tagged m p b.size true) =
          tagged_same m p _ low fits in
        outcome (place-whole less) (ap (λ u. if u then split else whole) (sym h)) (
          (tagged-BlockAt m p _ low fits, RightOf-frame (p + b.size) rs (omega arith) same.1 right),
          same,
        )
  ]
    where
      split : List Block
      split = block asize true ∷ block (b.size - asize) false ∷ rs

      whole : List Block
      whole = block b.size true ∷ rs

      outcome :
          {m' : Words} {bs bs' : List Block}
          → place m p asize ≡ m'
          → bs ≡ bs'
          → RightOf m' p bs × SameOutside p (p + b.size) m m'
          → RightOf (place m p asize) p bs' × SameOutside p (p + b.size) m (place m p asize)
      outcome e f = subst₂ (λ w l. RightOf w p l × SameOutside p (p + b.size) m w) (sym e) f

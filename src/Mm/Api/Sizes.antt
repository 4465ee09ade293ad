-- ===== src/Mm/Api/Sizes.antt =====
-- The sizes that `mm_malloc` computes with.
use orga_del_computador.Base.{
  ℕ, ◌+◌, ◌*◌, ◌/◌, ◌%◌, ◌^◌, ◌≤◌, ◌<◌, ◌≡◌, ◌∙◌, ap, arith, ltb, if◌then◌else◌,
}
use orga_del_computador.Mm.Words.{max, chunksize, wsize}
use orga_del_computador.Mm.Api.{adjusted}
use orga_del_computador.Mm.Api.Extend.{IsWords}

-- The block for a request: whole units, with room for the request and two tags, and no more than a
-- unit above that for a large request.
pub record IsBlockSize (size asize : ℕ) : Type 0 where
  pub units : asize % 16 ≡ 0
  pub least : 32 ≤ asize
  pub room : size + 16 ≤ asize
  pub bounded : asize < 2 ^ 32

pub adjusted-IsBlockSize : (size : ℕ) → size + 31 < 2 ^ 32 → IsBlockSize size (adjusted size)
unfolding adjusted
adjusted-IsBlockSize size h = ground arith

-- The words by which the heap grows for a block of `asize` bytes.
abbrev pub growth : ℕ → ℕ
growth asize = max asize chunksize / wsize

pub growth-IsWords : (asize : ℕ) → asize % 16 ≡ 0 → asize < 2 ^ 32 → IsWords (growth asize)
unfolding max
growth-IsWords asize h k = ground arith

pub le-growth : (asize : ℕ) → asize % 16 ≡ 0 → asize < 2 ^ 32 → asize ≤ growth asize * 8
unfolding max
le-growth asize h k = ground arith

-- The bytes of the smallest block for a request: its payload and two tags of 8 bytes, rounded up to a
-- multiple of 16, and 32 at least.
abbrev pub needed : ℕ → ℕ
needed size = if ltb size 17 then 32 else (size + 16 + 15) / 16 * 16

-- The bytes by which a heap without a block for the request grows: CHUNKSIZE at least.
abbrev pub grown : ℕ → ℕ
grown size = if ltb (needed size) 4096 then 4096 else needed size

pub adjusted-needed : (size : ℕ) → size + 31 < 2 ^ 32 → adjusted size ≡ needed size
unfolding adjusted
adjusted-needed size h = ground arith

growth-eq :
    (asize : ℕ)
    → asize % 16 ≡ 0
    → asize < 2 ^ 32
    → growth asize * 8 ≡ (if ltb asize 4096 then 4096 else asize)
unfolding max
growth-eq asize h k = ground arith

pub growth-grown : (size : ℕ) → size + 31 < 2 ^ 32 → growth (adjusted size) * 8 ≡ grown size
growth-grown size h =
    let b = adjusted-IsBlockSize size h in
    growth-eq (adjusted size) b.units b.bounded
    ∙ ap (λ n. if ltb n 4096 then 4096 else n) (adjusted-needed size h)

-- ===== src/Mm/Words/Laws.antt =====
-- The accessors at a word that holds a size and an allocation bit.
use orga_del_computador.Base.{
  ℕ, ◌+◌, ◌-◌, ◌*◌, ◌/◌, ◌%◌, ◌^◌, ◌<◌, bit_and, ◌≡◌, ◌∙◌, arith, Bool, true, false,
}
use orga_del_computador.Base.Bits.{bit_and_shifted, bit_and_mask, bit_or_fields, bit_or-zero}
use orga_del_computador.Mm.Words.{
  Words, pack, get_size, get_alloc, get_header, get_footer, get_next_block, get_previous_block,
}
use orga_del_computador.Mm.Layout.{Block, digit, tag, Fits, BlockAt}

and_size_mask : (w : ℕ) → w < 2 ^ 32 → bit_and w 0xFFFF_FFF8 ≡ w / 8 * 8
and_size_mask w h = ground (arith, bit_and_shifted 3 0x1FFF_FFFF w, bit_and_mask 29 (w / 8))

-- `pack` of a block's size and bit is its tag.
pub pack-tag : (s : ℕ) (u : Bool) → s % 16 ≡ 0 → s < 2 ^ 32 → pack s (digit u) ≡ s + digit u
unfolding pack
pack-tag s true h k = ground (arith, bit_or_fields 3 (s / 8) 1)
pack-tag s false h k = ground (arith, bit_or-zero (s % 2 ^ 32))

module _ (m : Words) (a : ℕ) (b : Block) (e : m a ≡ tag b) (f : Fits b) where
  pub get_size-tag : get_size m a ≡ b.size
  unfolding get_size
  get_size-tag = rw e (and_size_mask (tag b) size_lt ∙ size_of)
    where
      size_lt : b.size + digit b.used < 2 ^ 32
      size_lt = ground arith

      size_of : (b.size + digit b.used) / 8 * 8 ≡ b.size
      size_of = ground arith

  pub get_alloc-tag : get_alloc m a ≡ digit b.used
  unfolding get_alloc
  get_alloc-tag = rw e (bit_and_mask 1 (tag b) ∙ digit_of)
    where
      digit_of : (b.size + digit b.used) % 2 ≡ digit b.used
      digit_of = ground arith

-- The epilogue header, whose size is 0.
module _ (m : Words) (a : ℕ) (e : m a ≡ 1) where
  pub get_size-end : get_size m a ≡ 0
  unfolding get_size
  get_size-end = rw e

  pub get_alloc-end : get_alloc m a ≡ 1
  unfolding get_alloc
  get_alloc-end = rw e

-- A header alone says where the footer is.
pub footer_of_header :
    (m : Words) (p : ℕ) (b : Block) → m (p - 8) ≡ tag b → Fits b → get_footer m p ≡ p + b.size - 16
unfolding get_footer
footer_of_header m p b e f = rw (get_size-tag m (p - 8) b e f)

-- So does it say where the next block is, and a footer where its block is.
pub next_of_header :
    (m : Words) (p : ℕ) (b : Block) → m (p - 8) ≡ tag b → Fits b → get_next_block m p ≡ p + b.size
unfolding get_next_block
next_of_header m p b e f = rw (get_size-tag m (p - 8) b e f)

pub previous_of_footer :
    (m : Words) (p : ℕ) (b : Block)
    → m (p + b.size - 16) ≡ tag b
    → Fits b
    → get_previous_block m (p + b.size) ≡ p
unfolding get_previous_block
previous_of_footer m p b e f = rw (get_size-tag m (p + b.size - 16) b e f) (omega arith)

module _ (m : Words) (p : ℕ) (b : Block) (at : BlockAt m p b) where
  pub header_size : get_size m (get_header p) ≡ b.size
  unfolding get_header
  header_size = get_size-tag m (p - 8) b at.header at.fits

  pub header_alloc : get_alloc m (get_header p) ≡ digit b.used
  unfolding get_header
  header_alloc = get_alloc-tag m (p - 8) b at.header at.fits

  pub footer-eq : get_footer m p ≡ p + b.size - 16
  footer-eq = footer_of_header m p b at.header at.fits

  pub footer_size : get_size m (get_footer m p) ≡ b.size
  footer_size = rw footer-eq (get_size-tag m (p + b.size - 16) b at.footer at.fits)

  pub footer_alloc : get_alloc m (get_footer m p) ≡ digit b.used
  footer_alloc = rw footer-eq (get_alloc-tag m (p + b.size - 16) b at.footer at.fits)

  pub next-eq : get_next_block m p ≡ p + b.size
  next-eq = next_of_header m p b at.header at.fits

  -- From the end of the block its footer leads back to it.
  pub previous-eq : get_previous_block m (p + b.size) ≡ p
  previous-eq = previous_of_footer m p b at.footer at.fits

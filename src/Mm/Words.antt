-- ===== src/Mm/Words.antt =====
-- The accessors of mm.c over the allocator's memory, one number for the `unsigned` at an address.
-- All of mm.c's accesses are 8 bytes apart or the same, so no two of them overlap in part.
-- Pointer arithmetic past the address space is undefined in C, and is plain arithmetic here.
pub mod Laws
use orga_del_computador.Base.{
  ℕ, ◌+◌, ◌-◌, bit_and, bit_or, Bool, ltb, leb, ◌==◌, u32, if◌then◌else◌,
}

abbrev pub Words : Type 0
Words = ℕ → ℕ

-- WSIZE, DSIZE and CHUNKSIZE.
abbrev pub wsize : ℕ
wsize = 8

abbrev pub dsize : ℕ
dsize = 16

abbrev pub chunksize : ℕ
chunksize = 4096

-- The parameters of `pack` and `max` are `unsigned`: what is passed is cut to 32 bits.
unfoldable pub pack : ℕ → ℕ → ℕ
pack size alloc = bit_or (u32 size) (u32 alloc)

unfoldable pub get : Words → ℕ → ℕ
get m bp = m bp

unfoldable pub put : Words → ℕ → ℕ → Words
put m bp value a = if a == bp then value else m a

unfoldable pub get_size : Words → ℕ → ℕ
unfolding get
get_size m bp = bit_and (get m bp) 0xFFFF_FFF8

unfoldable pub get_alloc : Words → ℕ → ℕ
unfolding get
get_alloc m bp = bit_and (get m bp) 1

unfoldable pub max : ℕ → ℕ → ℕ
max x y = if ltb (u32 y) (u32 x) then u32 x else u32 y

unfoldable pub get_header : ℕ → ℕ
get_header bp = bp - wsize

unfoldable pub get_footer : Words → ℕ → ℕ
unfolding get_header
get_footer m bp = bp + get_size m (get_header bp) - dsize

unfoldable pub get_next_block : Words → ℕ → ℕ
get_next_block m bp = bp + get_size m (bp - wsize)

unfoldable pub get_previous_block : Words → ℕ → ℕ
get_previous_block m bp = bp - get_size m (bp - dsize)

unfoldable pub is_free : Words → ℕ → Bool
unfolding get_header
is_free m bp = get_alloc m (get_header bp) == 0

-- `size` is an `unsigned` parameter too.
unfoldable pub is_big_enough : Words → ℕ → ℕ → Bool
unfolding get_header
is_big_enough m bp size = leb (u32 size) (get_size m (get_header bp))

-- ===== src/Mm/Block.antt =====
-- The functions of mm.c on blocks: `coalesce` and `place`.
pub mod Tags
pub mod Coalesce
pub mod Join
pub mod Place
use orga_del_computador.Base.{
  ℕ, ◌+◌, ◌-◌, ◌*◌, ◌^◌, not, ◌&&◌, leb, u32, u64, is_true, if◌then◌else◌,
}
use orga_del_computador.Mm.Words.{
  Words, dsize, pack, put, get_size, get_alloc, get_header, get_footer, get_next_block,
  get_previous_block,
}

-- The new value of `bp`, and the memory. `prev_alloc && next_alloc` reads numbers as conditions.
unfoldable pub coalesce : Words → ℕ → ℕ × Words
coalesce m bp =
    let prev_alloc = is_true (get_alloc m (get_footer m (get_previous_block m bp))) in
    let next_alloc = is_true (get_alloc m (get_header (get_next_block m bp))) in
    let size = get_size m (get_header bp) in
    if prev_alloc && next_alloc
    then (bp, m)
    else if prev_alloc && not next_alloc
    then (let size = u64 (size + get_size m (get_header (get_next_block m bp))) in
        let m = put m (get_header bp) (pack size 0) in
        let m = put m (get_footer m bp) (pack size 0) in (bp, m))
    else if not prev_alloc && next_alloc
    then (let size = u64 (size + get_size m (get_header (get_previous_block m bp))) in
        let m = put m (get_footer m bp) (pack size 0) in
        let m = put m (get_header (get_previous_block m bp)) (pack size 0) in
        (get_previous_block m bp, m))
    else (let prev = get_size m (get_header (get_previous_block m bp)) in
        let next = get_size m (get_footer m (get_next_block m bp)) in
        let size = u64 (size + u32 (prev + next)) in
        let m = put m (get_header (get_previous_block m bp)) (pack size 0) in
        let m = put m (get_footer m (get_next_block m bp)) (pack size 0) in
        (get_previous_block m bp, m))

-- `csize - asize` is a `size_t`, and wraps.
unfoldable pub place : Words → ℕ → ℕ → Words
place m bp asize =
    let csize = get_size m (get_header bp) in
    let rest = u64 (csize + 2 ^ 64 - asize) in
    if leb (2 * dsize) rest
    then (let m = put m (get_header bp) (pack asize 1) in
        let m = put m (get_footer m bp) (pack asize 1) in
        let bp = get_next_block m bp in
        let m = put m (get_header bp) (pack rest 0) in put m (get_footer m bp) (pack rest 0))
    else (let m = put m (get_header bp) (pack csize 1) in put m (get_footer m bp) (pack csize 1))

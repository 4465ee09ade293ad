-- ===== src/Mm/Api/Extend.antt =====
-- `extend_heap` on a well-formed heap.
use orga_del_computador.Base.{
  ℕ, ◌+◌, ◌-◌, ◌*◌, ◌%◌, ◌^◌, ◌≤◌, ◌<◌, ◌≡◌, refl, sym, ◌∙◌, arith, false, ap, List, [], ◌∷◌,
  Option, none, some, u32, u64, lt→leb, le→ltb, ◌⊎◌,
}
use mathlib.Core.Path.{subst}
use mathlib.Core.List.{reverse_aux}
use orga_del_computador.MemLib.{mem_sbrk, Sim}
use orga_del_computador.Mm.Words.{Words, put, pack, get_header, get_next_block, wsize}
use orga_del_computador.Mm.Words.Laws.{next-eq}
use orga_del_computador.Mm.Layout.{Block, block, total, Fits, BlockAt, LeftOf, free_rest}
use orga_del_computador.Mm.Layout.Frame.{SameBelow, LeftOf-frame}
use orga_del_computador.Mm.Block.{coalesce}
use orga_del_computador.Mm.Block.Tags.{tagged, tagged-BlockAt, tagged_same, put_self, put-ne}
use orga_del_computador.Mm.Block.Join.{Joined, coalesce-Joined}
use orga_del_computador.Mm.Heap.{Heap}
use orga_del_computador.Mm.Api.{extend_heap}
use orga_del_computador.Mm.Api.Invariant.{
  IsHeap, HasPrologue-joined, total-reverse_aux, joined, total-joined, Joined-RightOf,
}
use mathlib.Core.List.{append-nil}
use orga_del_computador.Mm.Live.Kept.{Kept, Kept-live_left}
use orga_del_computador.Mm.Api.Joined.{Kept-Joined, Kept-trans}
use orga_del_computador.Mm.Live.{live_left, live, unzip}

-- mem_sbrk grants a request that fits below the limit, and refuses any other.
pub mem_sbrk-grant :
    (incr : ℕ) (s : Sim)
    → incr < 2 ^ 31
    → s.mem_brk + incr ≤ s.mem_max_addr
    → mem_sbrk incr s ≡ (some s.mem_brk, record s { mem_brk = s.mem_brk + incr })
unfolding mem_sbrk
mem_sbrk-grant incr s small room = rw (lt→leb _ _ small, le→ltb _ _ room)

pub mem_sbrk-refuse :
    (incr : ℕ) (s : Sim)
    → (2 ^ 31 ≤ incr) ⊎ (s.mem_max_addr < s.mem_brk + incr)
    → mem_sbrk incr s ≡ (none, s)
unfolding mem_sbrk
mem_sbrk-refuse incr s h = ground arith

-- The bytes that a call with an even number of words asks for.
asked : (n : ℕ) → n * 8 < 2 ^ 32 → u32 (u64 (n * wsize)) ≡ n * 8
asked n h = omega arith

-- The memory before `coalesce`: a free block over the new area, and the epilogue behind it.
abbrev fresh : Words → ℕ → ℕ → Words
fresh m bp size =
    let m = tagged m bp size false in put m (get_header (get_next_block m bp)) (pack 0 1)

module _ (m : Words) (bp size : ℕ) (low : 16 ≤ bp) (f : Fits (block size false)) where
  fresh-eq : fresh m bp size ≡ put (tagged m bp size false) (bp + size - 8) 1
  unfolding get_header pack
  fresh-eq = rw (next-eq _ bp (block size false) (tagged-BlockAt m bp _ low f))

  pub fresh-BlockAt : BlockAt (fresh m bp size) bp (block size false)
  fresh-BlockAt =
      let at = tagged-BlockAt m bp (block size false) low f in
      rw fresh-eq (record {
        header = put-ne _ _ 1 _ (omega (arith, f.room)) ∙ at.header;
        footer = put-ne _ _ 1 _ (omega (arith, f.room)) ∙ at.footer;
        fits = f;
      })

  pub fresh_end : fresh m bp size (bp + size - 8) ≡ 1
  fresh_end = rw fresh-eq (put_self _ _ 1)

  pub fresh_same : SameBelow bp m (fresh m bp size)
  fresh_same a h =
      rw fresh-eq
        (put-ne _ _ 1 a (omega (arith, f.room)) ∙ (tagged_same m bp (block size false) low f).0 a h)

-- The heap with `n` more words.
abbrev extended : Heap → ℕ → Heap
extended h n = record h {
  sim = record (h.sim) { mem_brk = h.sim.mem_brk + n * 8 };
  words = (coalesce (fresh h.words h.sim.mem_brk (n * 8)) h.sim.mem_brk).1;
}

-- A number of words that makes whole 16-byte units.
pub record IsWords (n : ℕ) : Type 0 where
  pub even : n % 2 ≡ 0
  pub positive : 0 < n
  pub bounded : n * 8 < 2 ^ 32

extend_heap-eq :
    (h : Heap) (n : ℕ)
    → IsWords n
    → n * 8 < 2 ^ 31
    → h.sim.mem_brk + n * 8 ≤ h.sim.mem_max_addr
    → extend_heap h n
      ≡ (some (coalesce (fresh h.words h.sim.mem_brk (n * 8)) h.sim.mem_brk).0, extended h n)
unfolding extend_heap
extend_heap-eq h n w small room = rw (w.even, size, no_cut, mem_sbrk-grant (n * 8) h.sim small room)
  where
    size : u64 (n * wsize) ≡ n * 8
    size = omega (arith, w.bounded)

    no_cut : u32 (n * 8) ≡ n * 8
    no_cut = omega (arith, w.bounded)

-- When mem_sbrk refuses, `extend_heap` returns NULL and changes nothing.
pub extend_heap-none :
    (h : Heap) (n : ℕ)
    → IsWords n
    → (2 ^ 31 ≤ n * 8) ⊎ (h.sim.mem_max_addr < h.sim.mem_brk + n * 8)
    → extend_heap h n ≡ (none, h)
unfolding extend_heap
extend_heap-none h n w refused = rw (w.even, size, no_cut, mem_sbrk-refuse (n * 8) h.sim refused)
  where
    size : u64 (n * wsize) ≡ n * 8
    size = omega (arith, w.bounded)

    no_cut : u32 (n * 8) ≡ n * 8
    no_cut = omega (arith, w.bounded)

-- The outcome of a successful extension behind the blocks `ls`.
pub record Grown (h : Heap) (ls : List Block) (n : ℕ) (r : Option ℕ × Heap) : Type 0 where
  pub address : r.0 ≡ some (h.heap_listp + total (free_rest ls))
  pub heap : IsHeap r.1 (joined ls (n * 8) [])
  pub list_start : r.1.heap_listp ≡ h.heap_listp
  pub last : r.1.last_place ≡ h.last_place
  pub kept : Kept h.words r.1.words (live_left h.heap_listp ls)

module _ (h : Heap) (l : Block) (ls : List Block) (n : ℕ) (v : IsHeap h (reverse_aux (l ∷ ls) []))
    (w : IsWords n) (room : h.sim.mem_brk + n * 8 ≤ h.sim.mem_max_addr) where
  brk-eq : h.sim.mem_brk ≡ h.heap_listp + total ls + l.size
  brk-eq = omega (arith, v.top, total-reverse_aux (l ∷ ls) [])

  new-Fits : Fits (block (n * 8) false)
  new-Fits = record {
    aligned = omega (arith, w.even);
    room = omega (arith, w.even, w.positive);
    bounded = w.bounded;
  }

  small : l.size + n * 8 + 0 < 2 ^ 32
  small = omega (arith, v.start, v.limit, room, brk-eq)

  extension-Joined :
      Joined
        (fresh h.words h.sim.mem_brk (n * 8))
        h.heap_listp
        (l ∷ ls)
        (n * 8)
        []
        (coalesce (fresh h.words h.sim.mem_brk (n * 8)) h.sim.mem_brk)
  extension-Joined = rw brk-eq (
      coalesce-Joined (fresh h.words bp (n * 8)) h.heap_listp l ls (block (n * 8) false) low left.0
        left.1 (fresh-BlockAt h.words bp (n * 8) (omega arith) new-Fits) [] refl
        (fresh_end h.words bp (n * 8) (omega arith) new-Fits) small)
    where
      low : 16 ≤ h.heap_listp
      low = omega (arith, v.start)

      bp : ℕ
      bp = h.heap_listp + total ls + l.size

      left : LeftOf (fresh h.words bp (n * 8)) h.heap_listp (l ∷ ls)
      left =
          LeftOf-frame h.heap_listp (l ∷ ls) low
            (λ a below. fresh_same h.words bp (n * 8) (omega arith) new-Fits a (omega arith))
            (unzip h.words h.heap_listp (l ∷ ls) [] v.list).0

  extended-IsHeap : IsHeap (extended h n) (joined (l ∷ ls) (n * 8) [])
  extended-IsHeap = record {
    start = v.start;
    top = omega (arith, v.top, total-reverse_aux (l ∷ ls) [], total-joined (l ∷ ls) (n * 8) []);
    limit = v.limit;
    within = room;
    prologue = HasPrologue-joined l ls [] (n * 8) [] v.prologue;
    list = Joined-RightOf extension-Joined;
  }

  -- An extension within the limit returns the free block at the end of the longer heap.
  pub extend_heap-Grown : Grown h (l ∷ ls) n (extend_heap h n)
  unfolding live
  extend_heap-Grown =
      subst (Grown h (l ∷ ls) n)
        (sym (extend_heap-eq h n w (omega (arith, v.start, v.limit, v.top, room)) room))
        (record {
          address = ap some extension-Joined.address;
          heap = extended-IsHeap;
          list_start = refl;
          last = refl;
          kept = Kept-trans h.words (fresh h.words h.sim.mem_brk (n * 8)) _ _ fresh-Kept (
              subst (Kept (fresh h.words h.sim.mem_brk (n * 8)) (extended h n).words)
                (append-nil (live_left h.heap_listp (l ∷ ls)))
                (Kept-Joined h.heap_listp (l ∷ ls) (n * 8) [] extension-Joined));
        })
    where
      fresh-Kept :
          Kept h.words (fresh h.words h.sim.mem_brk (n * 8)) (live_left h.heap_listp (l ∷ ls))
      fresh-Kept = Kept-live_left h.words _ h.heap_listp (l ∷ ls) (λ a below.
          fresh_same h.words h.sim.mem_brk (n * 8) (omega (arith, v.start, brk-eq)) new-Fits a
            (omega (arith, brk-eq)))

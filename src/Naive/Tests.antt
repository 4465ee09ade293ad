-- ===== src/Naive/Tests.antt =====
-- Runs of Tp2/mm-naive.c on a heap with one block.
use orga_del_computador.Base.{refl, arith, [], ◌∷◌}
use orga_del_computador.Naive.{Naive}
use orga_del_computador.Naive.Memory.{load_size, store_size}
use orga_del_computador.Naive.Keeps.{HoldsChain}
use orga_del_computador.Naive.Copy.{Reallocated, mm_realloc-copies}

-- Three bytes at 72.
abbrev one_block : Naive
one_block = record {
  sim = record { mem_start_brk = 64; mem_brk = 80; mem_max_addr = 4096 };
  bytes = store_size (λ a. 7) 64 3;
}

one_block-HoldsChain : HoldsChain one_block ((72, 3) ∷ [])
unfolding load_size store_size
one_block-HoldsChain = record {
  eight = refl;
  start = refl;
  chain = (omega arith, refl, omega arith, omega arith, refl, omega arith);
}

mm_realloc-copies_example : Reallocated one_block 72 3 5 ((72, 3) ∷ [])
mm_realloc-copies_example =
    mm_realloc-copies one_block [] 72 3 [] 5 one_block-HoldsChain (omega arith) (omega arith)

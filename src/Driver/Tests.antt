-- ===== src/Driver/Tests.antt =====
-- Runs of Tp2/mdriver.c on a trace of three requests, with both allocators.
use orga_del_computador.Base.{
  ℕ, ◌+◌, ◌-◌, ◌^◌, Bool, ltb, ◌≡◌, refl, arith, none, false, true, List, [], ◌∷◌,
}
use orga_del_computador.MemLib.{max_heap}
use orga_del_computador.Mm.Run.{ok, exit}
use orga_del_computador.Mm.Heap.{Heap}
use orga_del_computador.Driver.Trace.{alloc, free, TraceOp, Driver, malloc_error, size_t_of}
use orga_del_computador.Driver.Eval.{realloc_checked}
use orga_del_computador.Driver.Files.{read_trace, lines_of, read_trace-lines_of}
use orga_del_computador.Driver.Legal.{IsLegal, drop_sized}
use orga_del_computador.Driver.Valid.{Passes}
use orga_del_computador.Driver.Signs.{realloc_checked-negative}
use orga_del_computador.Driver.OnMm.{byte_of_words, set_words, mm_package}
use orga_del_computador.Driver.OnMm.Keeps.{
  mm_contract, eval_mm_valid-mm_package, eval_mm_util-mm_package, eval_traces-mm_package,
}
use orga_del_computador.Driver.Measure.{eval_mm_util}
use orga_del_computador.Driver.Series.{Completes}
use orga_del_computador.Driver.Options.{Team, directory, file, ends_with_slash, start}
use orga_del_computador.Driver.Directory.{IsFound, start-IsFound}
use orga_del_computador.Driver.Peak.{peak, larger}
use orga_del_computador.Driver.Util.{Utilizes}
use orga_del_computador.Naive.Keeps.{naive_package, naive_contract, eval_mm_valid-naive_package}

abbrev three_ops : List TraceOp
three_ops =
    record { type = alloc; index = 0; size = 100 }
    ∷ record { type = alloc; index = 1; size = 40 }
    ∷ record { type = free; index = 0; size = 40 }
    ∷ []

three_ops-IsLegal : IsLegal [] three_ops
three_ops-IsLegal =
    ((refl, omega arith, omega arith), ((refl, omega arith, omega arith), (refl, tt)))

abbrev fresh_heap : Heap
fresh_heap = record {
  sim = record { mem_start_brk = 64; mem_brk = 64; mem_max_addr = 64 + max_heap };
  words = λ a. 0;
  heap_listp = 0;
  last_place = 0;
}

abbrev mm_driver : Driver mm_package
mm_driver = record {
  mem = fresh_heap;
  ranges = [];
  blocks = λ i. 0;
  block_sizes = λ i. 0;
  errors = 0;
}

eval_mm_valid-mm_package_example : Passes mm_package mm_contract three_ops mm_driver
eval_mm_valid-mm_package_example =
    eval_mm_valid-mm_package three_ops mm_driver (record { limit = refl; eight = refl })
      three_ops-IsLegal

three_ops-peak : peak [] three_ops ≡ 140
unfolding peak larger drop_sized
three_ops-peak = refl

eval_mm_util-mm_package_example :
    Utilizes mm_package mm_contract three_ops mm_driver (eval_mm_util three_ops mm_driver)
eval_mm_util-mm_package_example =
    eval_mm_util-mm_package three_ops mm_driver (record { limit = refl; eight = refl })
      three_ops-IsLegal (omega (arith, three_ops-peak))

eval_traces-mm_package_example :
    Completes mm_package mm_contract 2 (three_ops ∷ three_ops ∷ []) mm_driver
eval_traces-mm_package_example =
    eval_traces-mm_package 2 (three_ops ∷ three_ops ∷ []) mm_driver
      (record { limit = refl; eight = refl })
      (
        (three_ops-IsLegal, omega (arith, three_ops-peak)),
        ((three_ops-IsLegal, omega (arith, three_ops-peak)), tt),
      )

abbrev naive_driver : Driver naive_package
naive_driver = record {
  mem = record {
    sim = record { mem_start_brk = 64; mem_brk = 64; mem_max_addr = 4096 };
    bytes = λ a. 0;
  };
  ranges = [];
  blocks = λ i. 0;
  block_sizes = λ i. 4;
  errors = 0;
}

eval_mm_valid-naive_package_example : Passes naive_package naive_contract three_ops naive_driver
eval_mm_valid-naive_package_example =
    eval_mm_valid-naive_package three_ops naive_driver refl three_ops-IsLegal

realloc_checked-negative_example :
    realloc_checked 200 8 72 (true, naive_driver) ≡ ok (false, malloc_error naive_driver)
realloc_checked-negative_example =
    realloc_checked-negative naive_driver 200 8 72 (omega arith) (omega arith) (omega arith)

-- A `malloc` that refuses a number of bytes that is negative as a signed number.
abbrev can_malloc : ℕ → Bool
can_malloc bytes = ltb bytes (2 ^ 63)

read_trace-lines_of_example : read_trace can_malloc 2 3 (lines_of three_ops) ≡ ok three_ops
read_trace-lines_of_example =
    read_trace-lines_of can_malloc 2 three_ops (omega arith) (omega arith)
      ((omega arith, omega arith), ((omega arith, omega arith), ((omega arith, omega arith), tt)))
      refl refl refl refl

-- An `int` below 0 in the header.
read_trace_test : read_trace can_malloc (2 ^ 32 - 1) 0 [] ≡ exit
unfolding read_trace size_t_of
read_trace_test = refl

abbrev team : Team
team = record { teamname = b'x' ∷ []; name1 = b'a' ∷ []; id1 = b'1' ∷ []; name2 = []; id2 = [] }

-- The flags `-f a -t b`.
start-IsFound_example :
    IsFound none
      (file (b'a' ∷ []) ∷ directory (b'b' ∷ []) ∷ [])
      (start (b'.' ∷ b'/' ∷ []) team (file (b'a' ∷ []) ∷ directory (b'b' ∷ []) ∷ []))
unfolding ends_with_slash
start-IsFound_example =
    start-IsFound (b'.' ∷ b'/' ∷ []) team (file (b'a' ∷ []) ∷ directory (b'b' ∷ []) ∷ []) refl

-- Three bytes from 66 on, in two units, and the byte behind them.
set_words_test :
    (byte_of_words (set_words (λ a. 2 ^ 32 - 1) 66 7 3) 65 ≡ 255)
    × (byte_of_words (set_words (λ a. 2 ^ 32 - 1) 66 7 3) 66 ≡ 7)
    × (byte_of_words (set_words (λ a. 2 ^ 32 - 1) 66 7 3) 68 ≡ 7)
    × (byte_of_words (set_words (λ a. 2 ^ 32 - 1) 66 7 3) 69 ≡ 255)
unfolding set_words
set_words_test = (refl, refl, refl, refl)

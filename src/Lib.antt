-- ===== src/Lib.antt =====
-- A verification library of the laboratory programs of this repository.
--
-- Tp2, the allocator. `Mm` models Tp2/mm.c and `MemLib` the simulated break of Tp2/memlib.c on which
-- it runs. The memory is a function from addresses to the `unsigned` stored there (`Mm.Words`); mm.c
-- reads and writes words only at distances of 8 bytes, so no two of its words overlap in part.
-- `Mm.Block` has `coalesce` and `place`, `Mm.Heap` the static variables and the loops over the
-- implicit list (`find_first_fit` and the other three searches, `mm_checkheap`), `Mm.Api` the entry
-- points `mm_init`, `mm_malloc`, `mm_free`, `mm_realloc` with `extend_heap`. A pointer is a number and
-- NULL is `none`. `size_t`, `unsigned` and `int` conversions are written out (`Base.Words`).
-- A loop over the blocks runs on fuel, `rounds`: a step per 8 bytes of the heap and two more. On a
-- well-formed heap a block has 16 bytes at least, so that is enough, and the theorems on the entry
-- points say that the calls return. `exit` is the exit of `mm_checkheap`.
-- `Mm.Layout` says which list of blocks with boundary tags a memory stands for, `Mm.Live` is the view
-- of a client: its blocks by address and size. `Mm.Api.Holds` ties the two together, and the proofs
-- stand below the modules whose functions they are about; `Mm.Tests` has runs and examples.
--
-- `Client.Session` is the relation between a heap and the payloads of its client after a sequence
-- of calls, and `Client.Drain` frees what the client holds.
--
-- Tp2, the naive allocator. `Naive` models Tp2/mm-naive.c on the same break, with a memory of bytes
-- (`Naive.Memory`), since it keeps sizes in front of payloads and copies payloads. `Naive.Chain` is
-- the list of the blocks that were handed out.
--
-- Tp2, the driver. `Driver` models Tp2/mdriver.c. `Driver.Package` is the record of what it calls in
-- an allocator, in memlib and in the memory; `Driver.OnMm.mm_package` fills it with mm.c and
-- `Naive.Keeps.naive_package` with mm-naive.c. On mm.c the driver's bytes and the tags lie in one memory:
-- `memset` and the reading of bytes act on the units of four bytes that hold the tags. `Driver.Trace` has its data, `Driver.Ranges` its list
-- of payload extents, `Driver.Eval` `eval_mm_valid`, `Driver.Measure` `eval_mm_util` and
-- `eval_mm_speed`, `Driver.Libc` the evaluations of libc, which is a parameter, and `Driver.Files`
-- `read_trace` with the loop of `main` over the traces. `Driver.Contract` is the contract between the
-- driver and an allocator, and `Driver.Legal` says which traces a client may run. The arrays of a trace hold
-- some value before they are written. The `int`s of a request are bit patterns, whose sign is extended
-- where they are passed as a `size_t`. `malloc` in `read_trace` is a parameter. A failed assertion and `app_error` are `exit`. A `char` is signed, as on the target of the exercise.
--
-- `Driver.Util` compares the sums of `eval_mm_util` with the sizes in use, `Driver.Speed` is about
-- `eval_mm_speed`, and `Driver.Series` about the loop of `main`. `Driver.Options` has the flags of the
-- command line and the check of the team, `Driver.Report` the table of the results and the
-- performance index, with the type `double` as a parameter.
--
-- Tp2, the sampler. `Fcyc` models Tp2/fcyc.c, which measures a function until its `kbest` least times
-- agree. The type `double` with the tests of the code is a parameter, `Doubles`, and so are the
-- counters and `malloc`, `Meter`. The walk of `clear` has as many rounds as the buffer has cells and
-- one more, the loop of `fcyc` one more than `maxsamples`.
--
-- Tp2, the cycle counter. `Clock` models Tp2/clock.c on x86, with `rdtsc` as a parameter. The number of
-- cycles is rounded to a `double` of 53 bits, to nearest and to even (`Clock.to_double`).
--
-- Tp2, the list. `Lista` models Tp2/lista.c on a memory of nodes (`Lista.Nodos`), in which reading
-- NULL or a freed node is `fault`. `malloc` gives an address or NULL by an argument. The walk to the
-- end of the list and the loop of `destruir_lista` run on fuel: more rounds than nodes are enough for
-- the first, and one round more than `cantidad` is given to the second. `Lista.Segmento` says
-- which nodes lie between two pointers.
--
-- Lab1. `Cp57` models `writeall` and `copyfd` of Lab1/cp57.c: the results of the calls of `read` and
-- `write` are lists of answers, which the loops consume, and the file that is written is a list of
-- bytes. `Cp57.Main` has `creat_symlink` and `main`, on what the system calls give. `Ls57` models Lab1/ls57.c on the entries of a directory; `qsort` and `strcmp` are parameters.
--
-- Lab3, the recoder. `Recode.Encoding` and `Recode.Codepoint` model Lab3/recode57_alu.c,
-- `Recode.Stream` models Lab3/recode57.c. A buffer is the list of its bytes, numbers below 256; a
-- function that fills a buffer and returns a count returns the list that it wrote. `read_codepoint`
-- returns `none` where the C returns 0. The fuel of `orig_to_ucs4` is the length of the buffer and
-- one more, since a round takes a byte at least. `main` takes the bytes of its first `read` and the
-- blocks of the further ones; a first `read` of fewer than four bytes, after which the C reads
-- `bom` before it is set, is outside the model, and so are the errors of `read` and `write`.
--
-- Lab2, the bit puzzles. `DataLab.Functions` has the functions of Lab2/bits.c and
-- `DataLab.References` those of Lab2/tests.c that they are compared with, under their names in this
-- language's spelling. An `int` is its bit pattern, a number below 2 ^ 32, and `DataLab.Ints` has
-- the operators of C on patterns. The references of the float puzzles are not modelled;
-- the float puzzles are described by sign, exponent and fraction.
--
-- Lab2, the harness. `Btest` models the choice of the test values and the count of the errors of
-- Lab2/btest.c. What `rand` and `pow` give is in `Settings`, and a puzzle is a function with its
-- reference. A loop from `min` to `max` has as many rounds as there are values, for a `max` below the
-- highest `int`. A row of the values has MAX_TEST_VALS cells, and `Btest.row` is what is read back when
-- a value goes into the next one. `Btest.Args` has the flags of `main`, as `getopt` gives them.
--
-- Lab2, the number tools. `Tools` has what Lab2/ishow.c and Lab2/fshow.c share, the loop of
-- `get_num_val` over a text, and `Tools.Ishow` and `Tools.Fshow` the rest of each. A text is the list of
-- its characters, and `strtoll` and `strtof` are the parameter `Parsers`. A `long long` is its pattern.
--
-- Not modelled: the timeouts and the printing of Lab2/btest.c, Lab2/decl.c, `main` of Lab1/ls57.c,
-- the messages of Tp2/mdriver.c, the compensation for timer ticks in Tp2/clock.c, which computes in
-- floating point, and Tp2/ftimer.c and Tp2/fsecs.c, which call the timers of the system.
pub mod Base
pub mod MemLib
pub mod Mm
pub mod Recode
pub mod DataLab
pub mod Driver
pub mod Client
pub mod Fcyc
pub mod Clock
pub mod Naive
pub mod Lista
pub mod Cp57
pub mod Ls57
pub mod Btest
pub mod Tools

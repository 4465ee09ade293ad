-- ===== src/Cp57.antt =====
-- Lab1/cp57.c: the loops that copy a file, on the answers of `read` and `write`.
pub mod Whole
pub mod Faults
pub mod Main
mod Tests
use orga_del_computador.Base.{
  ℕ, zero, suc, ◌+◌, ◌-◌, ◌^◌, Bool, true, false, ◌&&◌, Option, none, some, List, [], ◌∷◌, ◌++◌,
  length, take, drop, ltb, ◌==◌, if◌then◌else◌,
}

-- What a call of `write` gives: -1 with EINTR, -1 with another error, or the number of bytes that
-- went into the file.
pub data Wrote : Type 0 where
  interrupted : Wrote
  failed : Wrote
  wrote : ℕ → Wrote

-- What a call of `read` gives: -1 with EINTR, -1 with another error, which may be EISDIR, or the
-- bytes that came into the buffer.
pub data Came : Type 0 where
  interrupted : Came
  failed : Bool → Came
  got : List ℕ → Came

-- The result of a function with the answers of `write` that are left and the bytes of the file that
-- is written. `none`: the answers end before the function returns.
abbrev pub Outcome : Type 0
Outcome = Option (ℕ × List Wrote × List ℕ)

unfoldable pub result_of : ℕ → ℕ → ℕ
result_of bytes_wr count = if bytes_wr == count then 0 else bytes_wr

-- The two loops. `retrying` is true in the inner one, in which an answer is not added to `bytes_wr`.
unfoldable pub writeall_loop : Bool → List Wrote → List ℕ → ℕ → List ℕ → Outcome
unfolding result_of
writeall_loop retrying [] buf bytes_wr out = none
writeall_loop retrying (interrupted ∷ answers) buf bytes_wr out =
    writeall_loop true answers buf bytes_wr out
writeall_loop retrying (failed ∷ answers) buf bytes_wr out =
    some (result_of bytes_wr (length buf), answers, out)
writeall_loop retrying (wrote n ∷ answers) buf bytes_wr out =
    let total = if retrying then bytes_wr else bytes_wr + n in
    let file = out ++ take n (drop bytes_wr buf) in
    let rest = writeall_loop false answers buf total file in
    if ltb total (length buf) && ltb 0 n
    then rest
    else some (result_of total (length buf), answers, file)

unfoldable pub writeall : List Wrote → List ℕ → List ℕ → Outcome
unfolding writeall_loop
writeall answers buf out = writeall_loop false answers buf 0 out

-- What follows `writeall` for `count` bytes that were read; `next` is the next round.
unfoldable pub copyfd_next : ℕ → ℕ → (ℕ → List Wrote → List ℕ → Outcome) → Outcome → Outcome
copyfd_next count bytes_wr next none = none
copyfd_next count bytes_wr next (some (result_wr, answers, out)) =
    let total = if result_wr == 0 then bytes_wr + count else bytes_wr + result_wr in
    let rest = next total answers out in
    if ltb 0 count && result_wr == 0
    then rest
    else some (if count == 0 then 0 else total, answers, out)

-- The loop of `copyfd`; -1 is a `size_t`.
unfoldable pub copyfd_loop : List Came → List Wrote → ℕ → List ℕ → Outcome
unfolding copyfd_next writeall
copyfd_loop [] answers bytes_wr out = none
copyfd_loop (interrupted ∷ reads) answers bytes_wr out = copyfd_loop reads answers bytes_wr out
copyfd_loop (failed is_dir ∷ reads) answers bytes_wr out =
    some (if is_dir then 2 ^ 64 - 1 else bytes_wr, answers, out)
copyfd_loop (got bytes ∷ reads) answers bytes_wr out =
    copyfd_next (length bytes) bytes_wr (λ total answers out. copyfd_loop reads answers total out)
      (writeall answers bytes out)

unfoldable pub copyfd : List Came → List Wrote → List ℕ → Outcome
unfolding copyfd_loop
copyfd reads answers out = copyfd_loop reads answers 0 out

-- ===== src/Cp57/Faults.antt =====
-- Copies in which `write` is interrupted or fails.
use orga_del_computador.Base.{
  ℕ, suc, ◌+◌, ◌<◌, ◌≡◌, ◌∙◌, refl, arith, some, List, [], ◌∷◌, ◌++◌, length, take, lt→ltb, le→ltb,
  ==_iff,
}
use orga_del_computador.Cp57.{
  Wrote, wrote, interrupted, failed, got, result_of, writeall_loop, writeall, copyfd_next,
  copyfd_loop, copyfd,
}
use orga_del_computador.Cp57.Whole.{Round, reads_of, bytes_of, copyfd_loop-interrupted, take-length}

-- When the first `write` is interrupted and the repeated one writes one byte or more, `writeall`
-- writes these bytes again: a third call that writes the whole buffer ends it with the result 0,
-- and the file has the first bytes of the buffer and then all of it.
pub writeall-twice :
    (n b : ℕ) (bs : List ℕ) (answers : List Wrote) (out : List ℕ)
    → 0 < n
    → writeall (interrupted ∷ wrote n ∷ wrote (length (b ∷ bs)) ∷ answers) (b ∷ bs) out
      ≡ some (0, answers, (out ++ take n (b ∷ bs)) ++ (b ∷ bs))
unfolding writeall writeall_loop
writeall-twice n b bs answers out pos =
    let m = suc (length bs) in
    let start : 0 + m ≡ m = omega arith in
    rw
      (
        lt→ltb 0 n pos,
        lt→ltb 0 m (omega arith),
        start,
        le→ltb m m (omega arith),
        (==_iff m m).1 refl,
        take-length bs,
      )
      refl

-- Every `write` fails.
abbrev pub failures : List Round → List Wrote
failures [] = failed ∷ []
failures (r ∷ rounds) = failed ∷ failures rounds

result_of-zero : (count : ℕ) → result_of 0 count ≡ 0
unfolding result_of
result_of-zero count = ground arith

copyfd_loop-failures :
    (rounds : List Round) (bytes_wr : ℕ) (out : List ℕ)
    → copyfd_loop (reads_of rounds) (failures rounds) bytes_wr out ≡ some (0, [], out)
unfolding copyfd_loop copyfd_next writeall writeall_loop
copyfd_loop-failures [] bytes_wr out = refl
copyfd_loop-failures (r ∷ rounds) bytes_wr out =
    let bytes = bytes_of ((r.first, r.bytes) ∷ r.parts) in
    copyfd_loop-interrupted r.interruptions (got bytes ∷ reads_of rounds) (failures (r ∷ rounds))
      bytes_wr out
    ∙ rw (lt→ltb 0 (length bytes) (omega arith), result_of-zero (length bytes))
        (copyfd_loop-failures rounds (bytes_wr + length bytes) out)

-- When every `write` fails and the file is read to its end, `copyfd` ends with the result 0, which
-- stands for a whole copy, and nothing was written.
pub copyfd-failures :
    (rounds : List Round) (out : List ℕ)
    → copyfd (reads_of rounds) (failures rounds) out ≡ some (0, [], out)
unfolding copyfd
copyfd-failures rounds out = copyfd_loop-failures rounds 0 out

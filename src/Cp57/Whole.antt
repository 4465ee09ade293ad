-- ===== src/Cp57/Whole.antt =====
-- A copy in which no `write` is interrupted or fails.
use orga_del_computador.Base.{
  ℕ, zero, suc, ◌+◌, ◌<◌, ◌≡◌, refl, ◌∙◌, ap, arith, false, some, List, [], ◌∷◌, ◌++◌, length, take,
  length-append, drop-append_length, lt→ltb, le→ltb, ==_iff,
}
use mathlib.Core.List.{append_assoc, append-nil}
use orga_del_computador.Cp57.{
  Wrote, Came, wrote, interrupted, got, writeall_loop, writeall, copyfd_next, copyfd_loop, copyfd,
}

-- A part that is not empty: its first byte and the others.
abbrev pub Part : Type 0
Part = ℕ × List ℕ

abbrev pub bytes_of : List Part → List ℕ
bytes_of [] = []
bytes_of ((b, bs) ∷ parts) = (b ∷ bs) ++ bytes_of parts

-- Each part is written by one call.
abbrev pub answers_of : List Part → List Wrote
answers_of [] = []
answers_of ((b, bs) ∷ parts) = wrote (suc (length bs)) ∷ answers_of parts

take-append_length : (xs ys : List ℕ) → take (length xs) (xs ++ ys) ≡ xs
take-append_length [] ys = refl
take-append_length (x ∷ xs) ys = ap (λ l. x ∷ l) (take-append_length xs ys)

pub take-length : (xs : List ℕ) → take (length xs) xs ≡ xs
take-length [] = refl
take-length (x ∷ xs) = ap (λ l. x ∷ l) (take-length xs)

-- One answer, behind the bytes `done`.
module _ (done : List ℕ) (b : ℕ) (bs : List ℕ) (answers : List Wrote) (out : List ℕ) where
  writeall_loop-last :
      writeall_loop false (wrote (suc (length bs)) ∷ answers) (done ++ (b ∷ bs)) (length done) out
      ≡ some (0, answers, out ++ (b ∷ bs))
  unfolding writeall_loop
  writeall_loop-last =
      let whole = length-append done (b ∷ bs) in
      let n = length done + suc (length bs) in
      rw
        (
          drop-append_length done (b ∷ bs),
          take-length bs,
          whole,
          le→ltb n n (omega arith),
          (==_iff n n).1 refl,
        )
        refl

  writeall_loop-more :
      (rest : List ℕ)
      → 0 < length rest
      → writeall_loop false
          (wrote (suc (length bs)) ∷ answers)
          (done ++ ((b ∷ bs) ++ rest))
          (length done)
          out
        ≡ writeall_loop false answers
            ((done ++ (b ∷ bs)) ++ rest)
            (length (done ++ (b ∷ bs)))
            (out ++ (b ∷ bs))
  unfolding writeall_loop
  writeall_loop-more rest left =
      let parts = length-append done (b ∷ bs ++ rest) in
      let inside =
        lt→ltb (length done + suc (length bs)) (length (done ++ (b ∷ bs ++ rest)))
          (omega (arith, parts, length-append bs rest)) in
      rw
        (
          drop-append_length done (b ∷ bs ++ rest),
          take-append_length bs rest,
          inside,
          append_assoc done (b ∷ bs) rest,
          length-append done (b ∷ bs),
        )
        (rw (lt→ltb 0 (suc (length bs)) (omega arith)) refl)

writeall_loop-bytes_of :
    (parts : List Part) (done : List ℕ) (b : ℕ) (bs : List ℕ) (answers : List Wrote) (out : List ℕ)
    → writeall_loop false
        (answers_of ((b, bs) ∷ parts) ++ answers)
        (done ++ bytes_of ((b, bs) ∷ parts))
        (length done)
        out
      ≡ some (0, answers, out ++ bytes_of ((b, bs) ∷ parts))
writeall_loop-bytes_of [] done b bs answers out =
    rw (append-nil bs) (writeall_loop-last done b bs answers out)
writeall_loop-bytes_of ((c, cs) ∷ parts) done b bs answers out =
    writeall_loop-more done b bs (answers_of ((c, cs) ∷ parts) ++ answers) out
      (bytes_of ((c, cs) ∷ parts)) (omega arith)
    ∙ writeall_loop-bytes_of parts (done ++ (b ∷ bs)) c cs answers (out ++ (b ∷ bs))
    ∙ ap (λ l. some (0, answers, l)) (append_assoc out (b ∷ bs) (bytes_of ((c, cs) ∷ parts)))

pub writeall-bytes_of :
    (b : ℕ) (bs : List ℕ) (parts : List Part) (answers : List Wrote) (out : List ℕ)
    → writeall (answers_of ((b, bs) ∷ parts) ++ answers) (bytes_of ((b, bs) ∷ parts)) out
      ≡ some (0, answers, out ++ bytes_of ((b, bs) ∷ parts))
unfolding writeall
writeall-bytes_of b bs parts answers out = writeall_loop-bytes_of parts [] b bs answers out

-- A `read` that gives a part and more, behind some that are interrupted; the parts are how `writeall`
-- writes what came.
pub record Round : Type 0 where
  pub interruptions : ℕ
  pub first : ℕ
  pub bytes : List ℕ
  pub parts : List Part

abbrev pub interrupted_then : ℕ → List Came → List Came
interrupted_then zero reads = reads
interrupted_then (suc n) reads = interrupted ∷ interrupted_then n reads

-- The answers of `read` and of `write` for a whole copy, and the bytes of the file. At the end of the
-- file nothing is read, and nothing is written.
abbrev pub reads_of : List Round → List Came
reads_of [] = got [] ∷ []
reads_of (r ∷ rounds) =
    interrupted_then r.interruptions
      (got (bytes_of ((r.first, r.bytes) ∷ r.parts)) ∷ reads_of rounds)

abbrev pub writes_of : List Round → List Wrote
writes_of [] = wrote 0 ∷ []
writes_of (r ∷ rounds) = answers_of ((r.first, r.bytes) ∷ r.parts) ++ writes_of rounds

abbrev pub content_of : List Round → List ℕ
content_of [] = []
content_of (r ∷ rounds) = bytes_of ((r.first, r.bytes) ∷ r.parts) ++ content_of rounds

pub copyfd_loop-interrupted :
    (n : ℕ) (reads : List Came) (answers : List Wrote) (bytes_wr : ℕ) (out : List ℕ)
    → copyfd_loop (interrupted_then n reads) answers bytes_wr out
      ≡ copyfd_loop reads answers bytes_wr out
unfolding copyfd_loop
copyfd_loop-interrupted zero reads answers bytes_wr out = refl
copyfd_loop-interrupted (suc n) reads answers bytes_wr out =
    copyfd_loop-interrupted n reads answers bytes_wr out

copyfd_loop-content_of :
    (rounds : List Round) (bytes_wr : ℕ) (out : List ℕ)
    → copyfd_loop (reads_of rounds) (writes_of rounds) bytes_wr out
      ≡ some (0, [], out ++ content_of rounds)
unfolding copyfd_loop copyfd_next writeall writeall_loop
copyfd_loop-content_of [] bytes_wr out = refl
copyfd_loop-content_of (r ∷ rounds) bytes_wr out =
    let bytes = bytes_of ((r.first, r.bytes) ∷ r.parts) in
    copyfd_loop-interrupted r.interruptions (got bytes ∷ reads_of rounds) (writes_of (r ∷ rounds))
      bytes_wr out
    ∙ rw (writeall-bytes_of r.first r.bytes r.parts (writes_of rounds) out) (
        rw (lt→ltb 0 (length bytes) (omega arith)) (
          copyfd_loop-content_of rounds (bytes_wr + length bytes) (out ++ bytes)
          ∙ ap (λ l. some (0, [], l)) (append_assoc out bytes (content_of rounds))))

-- However the file comes in parts by `read`, with interruptions, and however each part goes out in
-- smaller parts by `write`, none of which is interrupted or fails, `copyfd` ends with the result 0
-- and has written exactly the bytes of the file, in order.
pub copyfd-content_of :
    (rounds : List Round) (out : List ℕ)
    → copyfd (reads_of rounds) (writes_of rounds) out ≡ some (0, [], out ++ content_of rounds)
unfolding copyfd
copyfd-content_of rounds out = copyfd_loop-content_of rounds 0 out

-- ===== src/Cp57/Tests.antt =====
-- A copy of a file of five bytes by two calls of `read`.
use orga_del_computador.Base.{
  ◌≡◌, refl, arith, Bool, true, false, none, if◌then◌else◌, some, List, [], ◌∷◌,
}
use orga_del_computador.Cp57.{wrote, interrupted, writeall, copyfd}
use orga_del_computador.Cp57.Whole.{Round, reads_of, writes_of, copyfd-content_of}
use orga_del_computador.Cp57.Main.{
  System, is_dir, copied, main, IntoDirectory, main-content_of, main-failures,
}
use orga_del_computador.Cp57.Faults.{failures, writeall-twice}

abbrev two_rounds : List Round
two_rounds =
    record { interruptions = 1; first = 10; bytes = 11 ∷ []; parts = (12, []) ∷ [] }
    ∷ record { interruptions = 0; first = 13; bytes = 14 ∷ []; parts = [] }
    ∷ []

copyfd-content_of_example :
    copyfd (reads_of two_rounds) (writes_of two_rounds) []
    ≡ some (0, [], 10 ∷ 11 ∷ 12 ∷ 13 ∷ 14 ∷ [])
copyfd-content_of_example = copyfd-content_of two_rounds []

writeall-twice_example :
    writeall (interrupted ∷ wrote 2 ∷ wrote 3 ∷ []) (10 ∷ 11 ∷ 12 ∷ []) []
    ≡ some (0, [], 10 ∷ 11 ∷ 10 ∷ 11 ∷ 12 ∷ [])
writeall-twice_example = writeall-twice 2 10 (11 ∷ 12 ∷ []) [] [] (omega arith)

-- A file `a/b` that goes into a directory in which files can be created, or not.
abbrev system : Bool → System
system creates = record {
  lstat = true;
  link = none;
  malloc = true;
  readlink = none;
  symlink = λ buf. true;
  opens_origin = true;
  destiny = is_dir;
  opens_dir = true;
  opens_at = λ name. creates;
  reads = reads_of two_rounds;
  written = λ valid. if valid then writes_of two_rounds else failures two_rounds;
}

system-IntoDirectory : (creates : Bool) → IntoDirectory (system creates) two_rounds
system-IntoDirectory creates = record {
  found = refl;
  regular = refl;
  opens = refl;
  into = refl;
  lists = refl;
  content = refl;
}

main-content_of_example :
    main (system true) (b'a' ∷ b'/' ∷ b'b' ∷ []) ≡ copied 0 (10 ∷ 11 ∷ 12 ∷ 13 ∷ 14 ∷ [])
main-content_of_example =
    main-content_of (system true) (b'a' ∷ []) (b'b' ∷ []) two_rounds (system-IntoDirectory true)
      ((λ e. omega (arith, e)), tt) refl

main-failures_example : main (system false) (b'a' ∷ b'/' ∷ b'b' ∷ []) ≡ copied 0 []
main-failures_example =
    main-failures (system false) (b'a' ∷ []) (b'b' ∷ []) two_rounds (system-IntoDirectory false)
      ((λ e. omega (arith, e)), tt) refl refl

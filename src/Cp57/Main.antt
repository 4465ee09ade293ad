-- ===== src/Cp57/Main.antt =====
-- `creat_symlink` and `main` of Lab1/cp57.c, on what the system calls give.
use orga_del_computador.Base.{
  ℕ, ◌≡◌, refl, ◌∙◌, ap, Bool, true, false, Option, none, some, List, [], ◌∷◌, ◌++◌, ◌==◌,
  if◌then◌else◌, ◌≢◌, ne→==,
}
use orga_del_computador.Cp57.{Wrote, Came, Outcome, copyfd}
use orga_del_computador.Cp57.Whole.{Round, reads_of, content_of, writes_of, copyfd-content_of}
use orga_del_computador.Cp57.Faults.{failures, copyfd-failures}

-- What `open` of the destination gives: a file, an error of a directory, or another error.
pub data Opened : Type 0 where
  opened : Opened
  is_dir : Opened
  failed : Opened

-- The answers of the system. `link` is the size of the link that `lstat` finds, `none` for another
-- file; `lstat` and `malloc` may fail; `readlink` gives the text of the link; `opens_at` says in
-- which directory and under which name `openat` creates a file. `written` has the answers of `write`,
-- by whether the descriptor of the destination is valid.
pub record System : Type 0 where
  pub lstat : Bool
  pub link : Option ℕ
  pub malloc : Bool
  pub readlink : Option (List ℕ)
  pub symlink : List ℕ → Bool
  pub opens_origin : Bool
  pub destiny : Opened
  pub opens_dir : Bool
  pub opens_at : List ℕ → Bool
  pub reads : List Came
  pub written : Bool → List Wrote

-- How `main` ends: with the code ERROR, with the result of the new link, or with a copy. A copy has
-- the number of bytes that is printed, 0 for a whole one, and the bytes in the destination.
pub data Ended : Type 0 where
  error : Ended
  linked : Bool → Ended
  no_result : Ended
  copied : ℕ → List ℕ → Ended
  goes_on : Ended

-- When `malloc` or `readlink` fails `sym_result` is returned although nothing was stored in it.
unfoldable pub creat_symlink : System → Ended
creat_symlink s =
    if s.malloc
    then elim s.readlink [ none ↦ no_result | some buf ↦ linked (s.symlink buf) ]
    else no_result

-- `strchr`: the text behind the first slash.
unfoldable pub behind_slash : List ℕ → Option (List ℕ)
behind_slash [] = none
behind_slash (c ∷ cs) = let rest = behind_slash cs in if c == b'/' then some cs else rest

-- The name of the file in the directory of the destination.
unfoldable pub name_in_dir : List ℕ → Option (List ℕ) → List ℕ
name_in_dir origin none = origin
name_in_dir origin (some rest) = rest

abbrev pub ended : Outcome → Ended
ended none = goes_on
ended (some (result, answers, out)) = copied result out

-- The copy, to a descriptor that may be the -1 of `openat`, which is not tested.
unfoldable pub copy_to : System → Bool → Ended
copy_to s valid = ended (copyfd s.reads (s.written valid) [])

unfoldable pub open_destiny : System → List ℕ → Opened → Ended
unfolding copy_to behind_slash name_in_dir
open_destiny s origin opened = copy_to s true
open_destiny s origin failed = error
open_destiny s origin is_dir =
    if s.opens_dir then copy_to s (s.opens_at (name_in_dir origin (behind_slash origin))) else error

-- `main` with the first of its two arguments.
unfoldable pub main : System → List ℕ → Ended
unfolding creat_symlink open_destiny
main s origin =
    if s.lstat
    then elim s.link [
      | some size ↦ creat_symlink s
      | none ↦ if s.opens_origin then open_destiny s origin s.destiny else error
    ]
    else error

-- The text has no slash.
abbrev pub HasNoSlash : List ℕ → Type 0
HasNoSlash [] = Unit {0}
HasNoSlash (c ∷ cs) = (c ≢ b'/') × HasNoSlash cs

-- The name in the directory is what follows the first slash, with all further slashes.
pub behind_slash-first :
    (dir rest : List ℕ) → HasNoSlash dir → behind_slash (dir ++ (b'/' ∷ rest)) ≡ some rest
unfolding behind_slash
behind_slash-first [] rest h = refl
behind_slash-first (c ∷ dir) rest (h, hs) = rw (ne→== c b'/' h) (behind_slash-first dir rest hs)

-- A regular file that can be read is to be copied into a directory.
pub record IntoDirectory (s : System) (rounds : List Round) : Type 0 where
  pub found : s.lstat ≡ true
  pub regular : s.link ≡ none
  pub opens : s.opens_origin ≡ true
  pub into : s.destiny ≡ is_dir
  pub lists : s.opens_dir ≡ true
  pub content : s.reads ≡ reads_of rounds

module _ (s : System) (dir name : List ℕ) (rounds : List Round) (i : IntoDirectory s rounds)
    (h : HasNoSlash dir) where
  main-copyfd :
      main s (dir ++ (b'/' ∷ name))
      ≡ ended (copyfd (reads_of rounds) (s.written (s.opens_at name)) [])
  unfolding main open_destiny name_in_dir copy_to
  main-copyfd =
      rw (i.found, i.regular, i.opens, i.into, i.lists, behind_slash-first dir name h, i.content)
        refl

  -- When the origin, a regular file, is named by a directory without a slash, a slash and a name,
  -- the destination is a directory in which a file of that name can be created, and each part of
  -- the file is written without an interruption or a failure, `main` ends with the whole content
  -- in it.
  pub main-content_of :
      s.written (s.opens_at name) ≡ writes_of rounds
      → main s (dir ++ (b'/' ∷ name)) ≡ copied 0 (content_of rounds)
  main-content_of e =
      main-copyfd
      ∙ ap (λ answers. ended (copyfd (reads_of rounds) answers [])) e
      ∙ ap ended (copyfd-content_of rounds [])

  -- When the origin is named like that, the destination is a directory in which no file of that
  -- name can be created, so that every `write` to the descriptor -1 fails, and the origin is read
  -- to its end, `main` ends as after a whole copy, and nothing was written.
  pub main-failures :
      s.opens_at name ≡ false
      → s.written false ≡ failures rounds
      → main s (dir ++ (b'/' ∷ name)) ≡ copied 0 []
  main-failures refused e =
      main-copyfd
      ∙ ap (λ valid. ended (copyfd (reads_of rounds) (s.written valid) [])) refused
      ∙ ap (λ answers. ended (copyfd (reads_of rounds) answers [])) e
      ∙ ap ended (copyfd-failures rounds [])

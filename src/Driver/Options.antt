-- ===== src/Driver/Options.antt =====
-- The command line of Tp2/mdriver.c: the flags that `getopt` finds, and the check of the team.
use orga_del_computador.Base.{
  ℕ, Bool, true, false, not, ◌&&◌, ◌||◌, Option, none, some, List, [], ◌∷◌, ◌++◌, ◌==◌,
  if◌then◌else◌,
}

-- The variables that the flags set. `tracefile` is the file of -f; without one the default files
-- are used. A text is the list of its characters.
pub record Options : Type 0 where
  pub tracefile : Option (List ℕ)
  pub tracedir : List ℕ
  pub team_check : Bool
  pub run_libc : Bool
  pub autograder : Bool
  pub verbose : ℕ

-- A result of `getopt`.
pub data Flag : Type 0 where
  summary : Flag
  file : List ℕ → Flag
  directory : List ℕ → Flag
  any_team : Flag
  libc : Flag
  breakdown : Flag
  more_verbose : Flag
  help : Flag
  unknown : Flag

-- How the reading of a flag ends: the program goes on, or exits with a code.
pub data Reading {ℓ} (A : Type ℓ) : Type ℓ where
  reads : A → Reading A
  exits : ℕ → Reading A

abbrev pub go_on {ℓ κ} : {A : Type ℓ} {B : Type κ} → Reading A → (A → Reading B) → Reading B
go_on (reads a) k = k a
go_on (exits code) k = exits code

-- The value of a static variable that names a directory, and no flags.
abbrev pub no_flags : List ℕ → Options
no_flags tracedir = record {
  tracefile = none;
  tracedir = tracedir;
  team_check = true;
  run_libc = false;
  autograder = false;
  verbose = 0;
}

-- Whether the last character is a slash. The text is not empty: the code would look in front of it.
unfoldable pub ends_with_slash : List ℕ → Bool
ends_with_slash [] = false
ends_with_slash (c ∷ []) = c == b'/'
ends_with_slash (c ∷ d ∷ cs) = ends_with_slash (d ∷ cs)

unfoldable pub with_slash : List ℕ → List ℕ
unfolding ends_with_slash
with_slash path = if ends_with_slash path then path else path ++ (b'/' ∷ [])

unfoldable pub set_directory : Options → List ℕ → Option (List ℕ) → Options
unfolding with_slash
set_directory o optarg none = record o { tracedir = with_slash optarg }
set_directory o optarg (some tracefile) = o

-- The `switch`.
unfoldable pub read_flag : Options → Flag → Reading Options
unfolding set_directory
read_flag o summary = reads (record o { autograder = true })
read_flag o (file optarg) =
    reads (record o { tracedir = b'.' ∷ b'/' ∷ []; tracefile = some optarg })
read_flag o (directory optarg) = reads (set_directory o optarg o.tracefile)
read_flag o any_team = reads (record o { team_check = false })
read_flag o libc = reads (record o { run_libc = true })
read_flag o breakdown = reads (record o { verbose = 1 })
read_flag o more_verbose = reads (record o { verbose = 2 })
read_flag o help = exits 0
read_flag o unknown = exits 1

unfoldable pub read_flags : Options → List Flag → Reading Options
unfolding read_flag
read_flags o [] = reads o
read_flags o (x ∷ xs) = go_on (read_flag o x) (λ o. read_flags o xs)

-- `team_t`; a text is empty when its first character is the end.
pub record Team : Type 0 where
  pub teamname : List ℕ
  pub name1 : List ℕ
  pub id1 : List ℕ
  pub name2 : List ℕ
  pub id2 : List ℕ

abbrev pub is_empty : List ℕ → Bool
is_empty [] = true
is_empty (c ∷ cs) = false

-- The tests of the team, in their order.
unfoldable pub check_team : Team → Reading (Unit {0})
check_team t =
    if is_empty t.teamname
    then exits 1
    else if is_empty t.name1 || is_empty t.id1
    then exits 1
    else if (not (is_empty t.name2) && is_empty t.id2) || (is_empty t.name2 && not (is_empty t.id2))
    then exits 1
    else reads tt

-- `main` up to the choice of the trace files.
unfoldable pub start : List ℕ → Team → List Flag → Reading Options
unfolding read_flags check_team
start tracedir team flags =
    go_on (read_flags (no_flags tracedir) flags)
      (λ o. go_on (if o.team_check then check_team team else reads tt) (λ _. reads o))

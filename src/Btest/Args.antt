-- ===== src/Btest/Args.antt =====
-- The command line of Lab2/btest.c: the flags that `getopt` finds, with their texts.
use orga_del_computador.Base.{
  ℕ, ◌≡◌, ◌≢◌, refl, Bool, true, false, ◌&&◌, Option, none, some, List, [], ◌∷◌, u32, ◌==◌,
  if◌then◌else◌, ne→==,
}
use orga_del_computador.DataLab.Ints.{slt}
use orga_del_computador.Tools.{Parsers, is_float, float_val, fits_unsigned}
use orga_del_computador.Btest.{Settings, TestRec, Score, run_tests}

-- The static variables; an argument of -1, -2 or -3 has the index 0, 1 or 2.
pub record Flags : Type 0 where
  pub grade : Bool
  pub timeout_limit : ℕ
  pub test_fname : Option (List ℕ)
  pub has_arg : ℕ → Bool
  pub argval : ℕ → ℕ
  pub global_rating : ℕ

-- A result of `getopt`.
pub data Flag : Type 0 where
  help : Flag
  grading : Flag
  test_name : List ℕ → Flag
  rating : List ℕ → Flag
  argument : ℕ → List ℕ → Flag
  timeout : List ℕ → Flag
  unknown : Flag

-- How the reading of a flag ends: the program goes on, or it exits.
pub data Reading : Type 0 where
  reads : Flags → Reading
  usage : Reading
  bad_argument : List ℕ → Reading

-- The variables of a program that starts; `limit` is TIMEOUT_LIMIT.
abbrev pub no_flags : ℕ → Flags
no_flags limit = record {
  grade = false;
  timeout_limit = limit;
  test_fname = none;
  has_arg = λ i. false;
  argval = λ i. 0;
  global_rating = 0;
}

-- The condition on an integer begins with `!*valp`, where `valp` holds the value so far.
unfoldable pub get_num_val : Parsers → List ℕ → ℕ → Option ℕ
unfolding is_float float_val fits_unsigned
get_num_val p sval valp =
    if is_float sval
    then float_val (p.strtof sval)
    else if (valp == 0) && fits_unsigned (p.strtoll sval)
    then some (u32 (p.strtoll sval))
    else none

unfoldable pub set_argument : Flags → ℕ → List ℕ → Option ℕ → Reading
set_argument f i optarg none = bad_argument optarg
set_argument f i optarg (some v) = reads (record f {
  has_arg = λ j. if j == i then true else f.has_arg j;
  argval = λ j. if j == i then v else f.argval j;
})

-- The `switch`; `atoi` gives the pattern of an `int`.
unfoldable pub read_flag : Parsers → (List ℕ → ℕ) → Flags → Flag → Reading
unfolding get_num_val set_argument
read_flag p atoi f help = usage
read_flag p atoi f grading = reads (record f { grade = true })
read_flag p atoi f (test_name optarg) = reads (record f { test_fname = some optarg })
read_flag p atoi f (rating optarg) =
    if slt (atoi optarg) 0 then usage else reads (record f { global_rating = atoi optarg })
read_flag p atoi f (argument i optarg) = set_argument f i optarg (get_num_val p optarg (f.argval i))
read_flag p atoi f (timeout optarg) = reads (record f { timeout_limit = atoi optarg })
read_flag p atoi f unknown = usage

-- A step of the loop behind a flag that was read.
abbrev pub go_on : Reading → (Flags → Reading) → Reading
go_on (reads f) k = k f
go_on usage k = usage
go_on (bad_argument optarg) k = bad_argument optarg

unfoldable pub read_flags : Parsers → (List ℕ → ℕ) → Flags → List Flag → Reading
unfolding read_flag
read_flags p atoi f [] = reads f
read_flags p atoi f (x ∷ xs) = go_on (read_flag p atoi f x) (λ g. read_flags p atoi g xs)

-- The argument that a flag fixes.
unfoldable pub fixed_by : Flags → ℕ → Option ℕ
fixed_by f i = if f.has_arg i then some (f.argval i) else none

-- What `main` does with the flags: the run of the tests, whose sums are printed.
unfoldable pub run_with : Settings → List TestRec → Flags → Score
unfolding run_tests fixed_by
run_with s tests f = run_tests (record s { fixed = fixed_by f }) f.test_fname f.global_rating tests

-- When an argument has a value other than 0 from a former flag, an integer for it is refused, and
-- the program exits.
pub read_flag-twice :
    (p : Parsers) (atoi : List ℕ → ℕ) (f : Flags) (i : ℕ) (optarg : List ℕ)
    → f.argval i ≢ 0
    → is_float optarg ≡ false
    → read_flag p atoi f (argument i optarg) ≡ bad_argument optarg
unfolding read_flag get_num_val set_argument
read_flag-twice p atoi f i optarg given int = rw (int, ne→== (f.argval i) 0 given) refl

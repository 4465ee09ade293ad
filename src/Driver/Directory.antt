-- ===== src/Driver/Directory.antt =====
-- Where Tp2/mdriver.c looks for the trace files.
use orga_del_computador.Base.{
  ℕ, ◌≡◌, refl, true, Option, none, some, List, [], ◌∷◌, ◌++◌, inl, inr, Bool-cases, ◌⊎◌,
}
use mathlib.Core.Path.{subst}
use orga_del_computador.Driver.Options.{
  Options, Flag, summary, file, directory, any_team, libc, breakdown, more_verbose, help, unknown,
  Reading, reads, exits, go_on, no_flags, ends_with_slash, with_slash, set_directory, read_flag,
  read_flags, Team, start,
}

ends_with_slash-append : (path : List ℕ) → ends_with_slash (path ++ (b'/' ∷ [])) ≡ true
unfolding ends_with_slash
ends_with_slash-append [] = refl
ends_with_slash-append (c ∷ []) = refl
ends_with_slash-append (c ∷ d ∷ cs) = ends_with_slash-append (d ∷ cs)

ends_with_slash-with_slash : (path : List ℕ) → ends_with_slash (with_slash path) ≡ true
unfolding with_slash
ends_with_slash-with_slash path = elim (Bool-cases (ends_with_slash path)) [
  | inl e ↦ rw (e, e) refl
  | inr e ↦ rw e (ends_with_slash-append path)
]

-- The file of the last flag -f, or what was there before.
abbrev pub file_of : Option (List ℕ) → Flag → Option (List ℕ)
file_of old (file optarg) = some optarg
file_of old summary = old
file_of old (directory optarg) = old
file_of old any_team = old
file_of old libc = old
file_of old breakdown = old
file_of old more_verbose = old
file_of old help = old
file_of old unknown = old

abbrev pub last_file : Option (List ℕ) → List Flag → Option (List ℕ)
last_file old [] = old
last_file old (x ∷ xs) = last_file (file_of old x) xs

-- The directory ends with a slash, and it is the current one if a file was named.
pub record HasPath (o : Options) : Type 0 where
  pub slash : ends_with_slash o.tracedir ≡ true
  pub current : (o.tracefile ≡ none) ⊎ (o.tracedir ≡ b'.' ∷ b'/' ∷ [])

set_directory-HasPath :
    (o : Options) (optarg : List ℕ) (old : Option (List ℕ))
    → o.tracefile ≡ old
    → HasPath o
    → HasPath (set_directory o optarg old) × ((set_directory o optarg old).tracefile ≡ o.tracefile)
unfolding set_directory
set_directory-HasPath o optarg none e h =
    (record { slash = ends_with_slash-with_slash optarg; current = inl e }, refl)
set_directory-HasPath o optarg (some f) e h = (h, refl)

-- A flag that was read keeps the property, and names the file.
abbrev IsKept : Options → Flag → Reading Options → Type 0
IsKept o x (reads o') = HasPath o' × (o'.tracefile ≡ file_of o.tracefile x)
IsKept o x (exits code) = Unit {0}

read_flag-IsKept : (o : Options) (x : Flag) → HasPath o → IsKept o x (read_flag o x)
unfolding read_flag ends_with_slash
read_flag-IsKept o summary h = (record { slash = h.slash; current = h.current }, refl)
read_flag-IsKept o (file optarg) h = (record { slash = refl; current = inr refl }, refl)
read_flag-IsKept o (directory optarg) h = set_directory-HasPath o optarg o.tracefile refl h
read_flag-IsKept o any_team h = (record { slash = h.slash; current = h.current }, refl)
read_flag-IsKept o libc h = (record { slash = h.slash; current = h.current }, refl)
read_flag-IsKept o breakdown h = (record { slash = h.slash; current = h.current }, refl)
read_flag-IsKept o more_verbose h = (record { slash = h.slash; current = h.current }, refl)
read_flag-IsKept o help h = tt
read_flag-IsKept o unknown h = tt

-- What the reading of the flags leaves, if the program goes on.
abbrev pub IsFound : Option (List ℕ) → List Flag → Reading Options → Type 0
IsFound old xs (reads o) = HasPath o × (o.tracefile ≡ last_file old xs)
IsFound old xs (exits code) = Unit {0}

behind_flag :
    (o : Options) (x : Flag) (xs : List Flag) (r : Reading Options)
    → IsKept o x r
    → ((o' : Options) → HasPath o' → IsFound o'.tracefile xs (read_flags o' xs))
    → IsFound o.tracefile (x ∷ xs) (go_on r (λ o'. read_flags o' xs))
behind_flag o x xs (exits code) k next = tt
behind_flag o x xs (reads o') (h, e) next =
    subst (λ old. IsFound old xs (read_flags o' xs)) e (next o' h)

read_flags-IsFound :
    (o : Options) (xs : List Flag) → HasPath o → IsFound o.tracefile xs (read_flags o xs)
unfolding read_flags
read_flags-IsFound o [] h = (h, refl)
read_flags-IsFound o (x ∷ xs) h =
    behind_flag o x xs (read_flag o x) (read_flag-IsKept o x h)
      (λ o' h'. read_flags-IsFound o' xs h')

after_team :
    (xs : List Flag) (r : Reading Options) (k : Options → Reading (Unit {0}))
    → IsFound none xs r
    → IsFound none xs (go_on r (λ o. go_on (k o) (λ _. reads o)))
after_team xs (exits code) k h = tt
after_team xs (reads o) k h = checked (k o)
  where
    checked : (t : Reading (Unit {0})) → IsFound none xs (go_on t (λ _. reads o))
    checked (reads u) = h
    checked (exits code) = tt

-- When the default directory ends with a slash and `main` does not exit while it reads the flags
-- and checks the team, the trace file is that of the last flag -f, the directory ends with a
-- slash, and it is ./ if there is a flag -f, wherever the flags -t stand.
pub start-IsFound :
    (tracedir : List ℕ) (team : Team) (flags : List Flag)
    → ends_with_slash tracedir ≡ true
    → IsFound none flags (start tracedir team flags)
unfolding start
start-IsFound tracedir team flags slash =
    after_team flags (read_flags (no_flags tracedir) flags) _
      (read_flags-IsFound (no_flags tracedir) flags (record { slash = slash; current = inl refl }))

-- ===== src/Ls57/Tests.antt =====
-- A directory with a hidden entry and two files.
use orga_del_computador.Base.{
  ℕ, ◌+◌, ◌^◌, ◌≡◌, refl, arith, true, false, none, some, List, [], ◌∷◌, ltb, ◌-◌, Option,
  if◌then◌else◌,
}
use orga_del_computador.Ls57.{
  File, Line, not_reg, cmpfiles, lsdir, read_files, store_file, getsize, print_files,
}
use orga_del_computador.Ls57.Order.{is_negative, cmpfiles-wraps}

-- The first character of two names decides.
abbrev first_char : List ℕ → List ℕ → ℕ
first_char [] [] = 0
first_char [] (b ∷ bs) = 2 ^ 32 - 1
first_char (a ∷ xs) [] = 1
first_char (a ∷ xs) (b ∷ bs) = if ltb a b then 2 ^ 32 - 1 else if ltb b a then 1 else 0

abbrev a_file : File
a_file = record { fsize = 7; name = b'a' ∷ 0 ∷ [] }

abbrev a_directory : File
a_directory = record { fsize = not_reg; name = b'd' ∷ 0 ∷ [] }

-- The name of one character keeps what stood in the array behind it.
abbrev shown : Option (List Line)
shown =
    lsdir (λ cmp files. files) first_char
      (record { d_name = b'.' ∷ []; is_regular = false; st_size = 0 }
        ∷ record { d_name = b'a' ∷ []; is_regular = true; st_size = 7 }
        ∷ record { d_name = b'd' ∷ []; is_regular = false; st_size = 9 }
        ∷ [])
      (record { fsize = 0; name = 0 ∷ 0 ∷ [] }
        ∷ record { fsize = 0; name = b'x' ∷ b'y' ∷ 0 ∷ [] }
        ∷ [])

shown_lines :
    shown
    ≡ some (
        record { name = b'a' ∷ []; size = some 7 }
        ∷ record { name = b'd' ∷ b'y' ∷ []; size = none }
        ∷ [])
unfolding lsdir read_files store_file getsize print_files
shown_lines = refl

cmpfiles-wraps_example :
    (is_negative (
        cmpfiles first_char
          (record { fsize = 5 + 2 ^ 31; name = b'b' ∷ 0 ∷ [] })
          (record { fsize = 5; name = b'a' ∷ 0 ∷ [] }))
      ≡ true)
    × (cmpfiles first_char
          (record { fsize = 5 + 2 ^ 32; name = b'b' ∷ 0 ∷ [] })
          (record { fsize = 5; name = b'a' ∷ 0 ∷ [] })
        ≡ 0)
cmpfiles-wraps_example = cmpfiles-wraps first_char (b'a' ∷ 0 ∷ []) (b'b' ∷ 0 ∷ []) 5 (omega arith)

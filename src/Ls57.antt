-- ===== src/Ls57.antt =====
-- Lab1/ls57.c: the entries of a directory, the order in which they are printed, and the lines.
pub mod Order
mod Tests
use orga_del_computador.Base.{
  ℕ, zero, suc, ◌+◌, ◌-◌, ◌^◌, Bool, true, false, not, ◌&&◌, Option, none, some, List, [], ◌∷◌,
  ◌++◌, length, drop, get_or, leb, ltb, ◌==◌, u32, u64, if◌then◌else◌,
}

-- NOT_REG, as a `ssize_t`.
abbrev pub not_reg : ℕ
not_reg = 2 ^ 64 - 1

-- `name` is the array with its bytes behind the end of the string.
pub record File : Type 0 where
  pub fsize : ℕ
  pub name : List ℕ

-- What `readdir` and `fstatat` say of an entry.
pub record Entry : Type 0 where
  pub d_name : List ℕ
  pub is_regular : Bool
  pub st_size : ℕ

unfoldable pub getsize : Entry → ℕ
getsize entry = if entry.is_regular then entry.st_size else not_reg

-- `strcmp` is the function of libc. The result is the bit pattern of an `int`.
unfoldable pub cmpfiles : (List ℕ → List ℕ → ℕ) → File → File → ℕ
cmpfiles strcmp one_f another_f =
    let result = u64 (one_f.fsize + 2 ^ 64 - another_f.fsize) in
    if result == 0 then strcmp one_f.name another_f.name else u32 result

-- The bytes of a string in front of its end.
abbrev pub c_string : List ℕ → List ℕ
c_string [] = []
c_string (c ∷ cs) = let rest = c_string cs in if c == 0 then [] else c ∷ rest

-- A line of the output: the name, and the size of a regular file.
pub record Line : Type 0 where
  pub name : List ℕ
  pub size : Option ℕ

unfoldable pub print_files : List File → List Line
print_files [] = []
print_files (f ∷ files) =
    record { name = c_string f.name; size = if f.fsize == not_reg then none else some f.fsize }
    ∷ print_files files

-- `strncpy` with the length of the name writes no end of the string over the bytes that were there.
unfoldable pub store_file : Entry → File → File
unfolding getsize
store_file entry old = record {
  fsize = getsize entry;
  name = entry.d_name ++ drop (length entry.d_name) old.name;
}

-- The loop over the entries. `files` is the array as it was, one element for each that is left, at
-- first MAX_FILES; an entry more is written behind the array, which is `none`.
unfoldable pub read_files : List Entry → List File → Option (List File)
unfolding store_file
read_files [] files = some []
read_files (entry ∷ entries) [] =
    let rest = read_files entries [] in if get_or entry.d_name 0 0 == b'.' then rest else none
read_files (entry ∷ entries) (old ∷ files) =
    let hidden = read_files entries (old ∷ files) in
    let rest = read_files entries files in
    if get_or entry.d_name 0 0 == b'.'
    then hidden
    else elim rest [ none ↦ none | some read ↦ some (store_file entry old ∷ read) ]

-- `qsort` is the function of libc.
unfoldable pub lsdir :
    (qsort : (File → File → ℕ) → List File → List File)
    → (List ℕ → List ℕ → ℕ)
    → List Entry
    → List File
    → Option (List Line)
unfolding cmpfiles print_files read_files
lsdir qsort strcmp entries files = elim (read_files entries files) [
  | none ↦ none
  | some read ↦ some (print_files (qsort (cmpfiles strcmp) read))
]

-- ===== src/Ls57/Order.antt =====
-- The order of `cmpfiles`.
use orga_del_computador.Base.{
  ℕ, ◌+◌, ◌^◌, ◌<◌, ◌≡◌, ◌≢◌, ◌⊎◌, arith, Bool, true, List, leb, ltb, ◌==◌, if◌then◌else◌,
}
use orga_del_computador.Ls57.{File, not_reg, cmpfiles}

-- The sign of an `int`.
abbrev pub is_negative : ℕ → Bool
is_negative p = leb (2 ^ 31) p

-- What is not a regular file comes first, then the sizes count.
abbrev pub rank : File → ℕ
rank f = if f.fsize == not_reg then 0 else f.fsize + 1

-- A size below the highest `int`, or no regular file.
abbrev pub IsSmall : File → Type 0
IsSmall f = (f.fsize + 1 < 2 ^ 31) ⊎ (f.fsize ≡ not_reg)

-- For sizes below 2^31 - 1 and entries that are no regular files, which count as -1, `cmpfiles` of
-- two entries of different sizes is negative exactly when the first one is the smaller.
pub cmpfiles-rank :
    (strcmp : List ℕ → List ℕ → ℕ) (one another : File)
    → IsSmall one
    → IsSmall another
    → rank one ≢ rank another
    → is_negative (cmpfiles strcmp one another) ≡ ltb (rank one) (rank another)
unfolding cmpfiles
cmpfiles-rank strcmp one another a b apart = ground arith

-- For every size below 2^62, `cmpfiles` says that a file that is larger by 2^31 bytes is the
-- smaller one, and that one that is larger by 2^32 bytes is equal, whatever their names.
pub cmpfiles-wraps :
    (strcmp : List ℕ → List ℕ → ℕ) (small big : List ℕ) (size : ℕ)
    → size < 2 ^ 62
    → (is_negative (
          cmpfiles strcmp
            (record { fsize = size + 2 ^ 31; name = big })
            (record { fsize = size; name = small }))
        ≡ true)
      × (cmpfiles strcmp
            (record { fsize = size + 2 ^ 32; name = big })
            (record { fsize = size; name = small })
          ≡ 0)
unfolding cmpfiles
cmpfiles-wraps strcmp small big size bound = (ground arith, ground arith)

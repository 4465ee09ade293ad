-- ===== src/Recode/Stream.antt =====
-- recode57.c: the conversion of a whole input, in blocks.
pub mod Decodes
pub mod Chunks
pub mod RoundTrip
use orga_del_computador.Base.{
  ℕ, zero, suc, ◌+◌, Option, none, some, List, [], ◌∷◌, ◌++◌, length, drop,
}
use mathlib.Core.Option
use orga_del_computador.Recode.Encoding.{
  Encoding, utf8, utf16be, utf16le, utf32be, utf32le, unknown, write_bom, bom_to_encoding,
}
use orga_del_computador.Recode.Codepoint.{read_codepoint, write_codepoint}

-- The loop of `orig_to_ucs4` with fuel: the codepoints, and the bytes that are left; `none` when the
-- fuel runs out. The loop ends at the first codepoint that cannot be read.
unfoldable pub orig_to_ucs4_loop : Encoding → ℕ → List ℕ → Option (List ℕ × List ℕ)
orig_to_ucs4_loop enc zero buf = none
orig_to_ucs4_loop enc (suc k) buf = elim (read_codepoint enc buf) [
  | none ↦ some ([], buf)
  | some (b, cp) ↦
      Option.map (λ (cps, rest). (cp ∷ cps, rest)) (orig_to_ucs4_loop enc k (drop b buf))
]

-- A round takes a byte at least.
unfoldable pub orig_to_ucs4 : Encoding → List ℕ → Option (List ℕ × List ℕ)
orig_to_ucs4 enc buf = orig_to_ucs4_loop enc (length buf + 1) buf

unfoldable pub ucs4_to_dest : Encoding → List ℕ → List ℕ
ucs4_to_dest enc [] = []
ucs4_to_dest enc (cp ∷ input) = write_codepoint enc cp ++ ucs4_to_dest enc input

-- The bytes of `bom` that are put in front of the input, by the encoding that was detected.
unfoldable pub carried : Encoding → ℕ → ℕ → ℕ → ℕ → List ℕ
carried utf8 b0 b1 b2 b3 = b0 ∷ b1 ∷ b2 ∷ b3 ∷ []
carried utf16be b0 b1 b2 b3 = b2 ∷ b3 ∷ []
carried utf16le b0 b1 b2 b3 = b2 ∷ b3 ∷ []
carried utf32be b0 b1 b2 b3 = []
carried utf32le b0 b1 b2 b3 = []
carried unknown b0 b1 b2 b3 = []

-- The loop of `main`, over the blocks that the calls of `read` return, each of a byte at least. What
-- is kept of a block stands in front of the next; `bom` is what the next write starts with.
unfoldable pub main_loop : Encoding → Encoding → List ℕ → List ℕ → List (List ℕ) → Option (List ℕ)
main_loop orig dest prev bom [] = some []
main_loop orig dest prev bom (block ∷ blocks) = elim (orig_to_ucs4 orig (prev ++ block)) [
  | none ↦ none
  | some (ucs4, rest) ↦
      Option.map (λ out. bom ++ ucs4_to_dest dest ucs4 ++ out) (main_loop orig dest rest [] blocks)
]

-- `main` behind the checks of its arguments: the first four bytes, then the blocks.
unfoldable pub main : Encoding → ℕ → ℕ → ℕ → ℕ → List (List ℕ) → Option (List ℕ)
unfolding main_loop carried
main dest b0 b1 b2 b3 blocks =
    let orig = bom_to_encoding b0 b1 b2 b3 in
    main_loop orig dest (carried orig b0 b1 b2 b3) (write_bom dest) blocks

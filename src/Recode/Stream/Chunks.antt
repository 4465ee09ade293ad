-- ===== src/Recode/Stream/Chunks.antt =====
-- The loop of `main` on an input in blocks, against the conversion of the input as a whole.
use orga_del_computador.Base.{
  ℕ, ◌+◌, ◌*◌, ◌≤◌, ◌<◌, ◌≡◌, refl, sym, ap, ◌∙◌, arith, some, List, [], ◌∷◌, ◌++◌, length,
  length-append,
}
use mathlib.Core.Path.{subst}
use mathlib.Core.List.{append-nil, append_assoc, flatten}
use mathlib.Core.Option
use orga_del_computador.Recode.Encoding.{
  Encoding, utf8, utf16be, utf16le, utf32be, utf32le, unknown, write_bom, bom_to_encoding,
}
use orga_del_computador.Recode.Codepoint.{write_codepoint, write_utf8, write_utf16be, write_utf16le}
use orga_del_computador.Recode.Stream.{orig_to_ucs4, ucs4_to_dest, main_loop, main, carried}
use orga_del_computador.Recode.Stream.Decodes.{
  Decodes, Decodes-exists, orig_to_ucs4-Decodes, Decodes-append, Decodes-length,
}

pub ucs4_to_dest-append :
    (enc : Encoding) (xs ys : List ℕ)
    → ucs4_to_dest enc (xs ++ ys) ≡ ucs4_to_dest enc xs ++ ucs4_to_dest enc ys
unfolding ucs4_to_dest
ucs4_to_dest-append enc [] ys = refl
ucs4_to_dest-append enc (x ∷ xs) ys =
    ap (λ l. write_codepoint enc x ++ l) (ucs4_to_dest-append enc xs ys)
    ∙ sym (append_assoc (write_codepoint enc x) (ucs4_to_dest enc xs) (ucs4_to_dest enc ys))

module _ (orig dest : Encoding) where
  -- One round of the loop, on a block whose decoding is known.
  round :
      (prev bom block : List ℕ) (blocks : List (List ℕ)) (cps rest : List ℕ)
      → Decodes orig (prev ++ block) cps rest
      → main_loop orig dest prev bom (block ∷ blocks)
        ≡ Option.map
            (λ out. bom ++ ucs4_to_dest dest cps ++ out)
            (main_loop orig dest rest [] blocks)
  unfolding main_loop
  round prev bom block blocks cps rest d =
      let e = orig_to_ucs4-Decodes orig (prev ++ block) cps rest d in ground arith

  loop_Decodes :
      (prev bom block : List ℕ) (blocks : List (List ℕ))
      → (cps : List ℕ) × (rest : List ℕ) × Decodes orig (prev ++ flatten (block ∷ blocks)) cps rest
        × (main_loop orig dest prev bom (block ∷ blocks) ≡ some (bom ++ ucs4_to_dest dest cps))
  unfolding flatten main_loop
  loop_Decodes prev bom block [] =
      let (cps, rest, d) = Decodes-exists orig (prev ++ block) in
      (
        cps,
        rest,
        subst (λ b. Decodes orig (prev ++ b) cps rest) (sym (append-nil block)) d,
        round prev bom block [] cps rest d ∙ ap some (append-nil _),
      )
  loop_Decodes prev bom block (next ∷ blocks) =
      let (cps, rest, d) = Decodes-exists orig (prev ++ block) in
      let (cps', rest', d', e) = loop_Decodes rest [] next blocks in
      (
        cps ++ cps',
        rest',
        subst (λ b. Decodes orig b (cps ++ cps') rest')
            (append_assoc prev block (next ++ flatten blocks))
            (Decodes-append orig (prev ++ block) (next ++ flatten blocks) cps rest cps' rest' d d'),
        round prev bom block (next ∷ blocks) cps rest d
            ∙ ap (Option.map (λ out. bom ++ ucs4_to_dest dest cps ++ out)) e
            ∙ ap some (
                append_assoc bom (ucs4_to_dest dest cps) (ucs4_to_dest dest cps')
                ∙ ap (λ l. bom ++ l) (sym (ucs4_to_dest-append dest cps cps'))),
      )

  -- The loop over the blocks writes what the conversion of all the bytes at once writes.
  pub main_loop-orig_to_ucs4 :
      (prev bom block : List ℕ) (blocks : List (List ℕ))
      → main_loop orig dest prev bom (block ∷ blocks)
        ≡ Option.map
            (λ (cps, rest). bom ++ ucs4_to_dest dest cps)
            (orig_to_ucs4 orig (prev ++ flatten (block ∷ blocks)))
  main_loop-orig_to_ucs4 prev bom block blocks =
      let (cps, rest, d, e) = loop_Decodes prev bom block blocks in
      e
      ∙ sym (
          ap (Option.map (λ (cps, rest). bom ++ ucs4_to_dest dest cps))
            (orig_to_ucs4-Decodes orig _ cps rest d))

-- The loop of `orig_to_ucs4` ends on every buffer, whatever its bytes; it leaves fewer than four
-- bytes, and there are no more codepoints than bytes that were taken.
pub orig_to_ucs4-total :
    (enc : Encoding) (buf : List ℕ)
    → (cps : List ℕ) × (rest : List ℕ) × (orig_to_ucs4 enc buf ≡ some (cps, rest))
      × (length rest < 4)
      × (length cps + length rest ≤ length buf)
orig_to_ucs4-total enc buf =
    let (cps, rest, d) = Decodes-exists enc buf in
    let (short, fit) = Decodes-length enc buf cps rest d in
    (cps, rest, orig_to_ucs4-Decodes enc buf cps rest d, short, fit)

write_codepoint-length : (enc : Encoding) (cp : ℕ) → length (write_codepoint enc cp) ≤ 4
unfolding write_codepoint write_utf8 write_utf16be write_utf16le
write_codepoint-length utf8 cp = ground arith
write_codepoint-length utf16be cp = ground arith
write_codepoint-length utf16le cp = ground arith
write_codepoint-length utf32be cp = ground arith
write_codepoint-length utf32le cp = ground arith
write_codepoint-length unknown cp = ground arith

ucs4_to_dest-length :
    (enc : Encoding) (cps : List ℕ) → length (ucs4_to_dest enc cps) ≤ length cps * 4
unfolding ucs4_to_dest
ucs4_to_dest-length enc [] = omega arith
ucs4_to_dest-length enc (cp ∷ cps) = omega (
  arith,
  length-append (write_codepoint enc cp) (ucs4_to_dest enc cps),
  write_codepoint-length enc cp,
  ucs4_to_dest-length enc cps,
)

write_bom-length : (enc : Encoding) → length (write_bom enc) ≤ 4
unfolding write_bom
write_bom-length utf8 = omega arith
write_bom-length utf16be = omega arith
write_bom-length utf16le = omega arith
write_bom-length utf32be = omega arith
write_bom-length utf32le = omega arith
write_bom-length unknown = omega arith

-- A round of `main` on at most 1024 bytes fits its buffers: at most 1024 codepoints, at most 1024
-- * 4 + 4 bytes with a byte order mark, and what is left leaves room for the next `read`.
pub round-buffers :
    (orig dest : Encoding) (inbuf cps rest : List ℕ)
    → length inbuf ≤ 1024
    → orig_to_ucs4 orig inbuf ≡ some (cps, rest)
    → (length cps ≤ 1024)
      × (length (write_bom dest ++ ucs4_to_dest dest cps) ≤ 1024 * 4 + 4)
      × (length rest < 1024)
round-buffers orig dest inbuf cps rest small e =
    let (cps', rest', e', few, fit) = orig_to_ucs4-total orig inbuf in
    let some_cps : length cps' ≡ length cps = cc in
    let some_rest : length rest' ≡ length rest = cc in
    (
      omega arith,
      omega (
        arith,
        length-append (write_bom dest) (ucs4_to_dest dest cps),
        write_bom-length dest,
        ucs4_to_dest-length dest cps,
      ),
      omega arith,
    )

-- For an input of more than four bytes, however it is cut into blocks, `main` writes the byte
-- order mark and the conversion of all its codepoints at once, decoded in the encoding that the
-- first four bytes show.
pub main-orig_to_ucs4 :
    (dest : Encoding) (b0 b1 b2 b3 : ℕ) (block : List ℕ) (blocks : List (List ℕ))
    → main dest b0 b1 b2 b3 (block ∷ blocks)
      ≡ Option.map
          (λ (cps, rest). write_bom dest ++ ucs4_to_dest dest cps)
          (orig_to_ucs4
            (bom_to_encoding b0 b1 b2 b3)
            (carried (bom_to_encoding b0 b1 b2 b3) b0 b1 b2 b3 ++ flatten (block ∷ blocks)))
unfolding main
main-orig_to_ucs4 dest b0 b1 b2 b3 block blocks =
    main_loop-orig_to_ucs4 (bom_to_encoding b0 b1 b2 b3) dest
      (carried (bom_to_encoding b0 b1 b2 b3) b0 b1 b2 b3) (write_bom dest) block blocks

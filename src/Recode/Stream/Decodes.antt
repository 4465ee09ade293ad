-- ===== src/Recode/Stream/Decodes.antt =====
-- What `orig_to_ucs4` computes: the codepoints of a buffer one by one, and what is left.
use orga_del_computador.Base.{
  ℕ, zero, suc, ◌+◌, ◌≤◌, ◌<◌, ◌≡◌, refl, sym, arith, none, some, List, [], ◌∷◌, ◌++◌, length, drop,
  length-drop, inl, inr, Option-cases,
}
use mathlib.Core.Path.{subst}
use orga_del_computador.Recode.Encoding.{Encoding}
use orga_del_computador.Recode.Codepoint.{read_codepoint}
use orga_del_computador.Recode.Codepoint.Reads.{
  Consumes, read_codepoint-Consumes, read_codepoint-append,
}
use orga_del_computador.Recode.Stream.{orig_to_ucs4, orig_to_ucs4_loop}

-- The codepoints `cps` are read from `buf` one after the other, and then no more can be read from
-- what is left, `rest`.
abbrev pub Decodes : Encoding → List ℕ → List ℕ → List ℕ → Type 0
Decodes enc buf [] rest = (read_codepoint enc buf ≡ none) × (buf ≡ rest)
Decodes enc buf (cp ∷ cps) rest =
    (b : ℕ) × (read_codepoint enc buf ≡ some (b, cp)) × Decodes enc (drop b buf) cps rest

drop-append_le : (b : ℕ) (xs ys : List ℕ) → b ≤ length xs → drop b (xs ++ ys) ≡ drop b xs ++ ys
drop-append_le zero xs ys h = refl
drop-append_le (suc b) [] ys h = absurd (omega arith)
drop-append_le (suc b) (x ∷ xs) ys h = drop-append_le b xs ys (omega arith)

module _ (enc : Encoding) where
  consumed :
      (buf : List ℕ) {b cp : ℕ}
      → read_codepoint enc buf ≡ some (b, cp)
      → (1 ≤ b) × (b ≤ 4) × (b ≤ length buf)
  consumed buf e = subst (Consumes (length buf)) e (read_codepoint-Consumes enc buf)

  left_over : (buf : List ℕ) → read_codepoint enc buf ≡ none → length buf < 4
  left_over buf e = subst (Consumes (length buf)) e (read_codepoint-Consumes enc buf)

  pub loop-Decodes :
      (k : ℕ) (buf cps rest : List ℕ)
      → Decodes enc buf cps rest
      → length buf < k
      → orig_to_ucs4_loop enc k buf ≡ some (cps, rest)
  unfolding orig_to_ucs4_loop
  loop-Decodes zero buf cps rest d fuel = absurd (omega arith)
  loop-Decodes (suc k) buf [] rest (e, same) fuel = ground arith
  loop-Decodes (suc k) buf (cp ∷ cps) rest (b, e, d) fuel = ground (
    arith,
    loop-Decodes k (drop b buf) cps rest d (omega (arith, length-drop b buf, consumed buf e)),
  )

  -- Every buffer is decoded.
  Decodes-exists_within :
      (k : ℕ) (buf : List ℕ)
      → length buf < k
      → (cps : List ℕ) × (rest : List ℕ) × Decodes enc buf cps rest
  Decodes-exists_within zero buf fuel = absurd (omega arith)
  Decodes-exists_within (suc k) buf fuel = elim (Option-cases (read_codepoint enc buf)) [
    | inl e ↦ ([], buf, (e, refl))
    | inr ((b, cp), e) ↦
        let (cps, rest, d) =
          Decodes-exists_within k (drop b buf) (omega (arith, length-drop b buf, consumed buf e)) in
        (cp ∷ cps, rest, (b, e, d))
  ]

  pub Decodes-exists : (buf : List ℕ) → (cps : List ℕ) × (rest : List ℕ) × Decodes enc buf cps rest
  Decodes-exists buf = Decodes-exists_within (length buf + 1) buf (omega arith)

  pub orig_to_ucs4-Decodes :
      (buf cps rest : List ℕ) → Decodes enc buf cps rest → orig_to_ucs4 enc buf ≡ some (cps, rest)
  unfolding orig_to_ucs4
  orig_to_ucs4-Decodes buf cps rest d = loop-Decodes (length buf + 1) buf cps rest d (omega arith)

  -- What is left is shorter than a codepoint, and every codepoint took a byte.
  pub Decodes-length :
      (buf cps rest : List ℕ)
      → Decodes enc buf cps rest
      → (length rest < 4) × (length cps + length rest ≤ length buf)
  Decodes-length buf [] rest (e, same) =
      subst (λ r. (length r < 4) × (0 + length r ≤ length buf)) same (left_over buf e, omega arith)
  Decodes-length buf (cp ∷ cps) rest (b, e, d) =
      omega (arith, Decodes-length (drop b buf) cps rest d, length-drop b buf, consumed buf e)

  -- What is read from a first part of the input, and what is read from its rest with a second part
  -- behind, is what is read from both parts at once.
  pub Decodes-append :
      (xs ys cps rest more last : List ℕ)
      → Decodes enc xs cps rest
      → Decodes enc (rest ++ ys) more last
      → Decodes enc (xs ++ ys) (cps ++ more) last
  Decodes-append xs ys [] rest more last (e, same) d =
      subst (λ r. Decodes enc (r ++ ys) more last) (sym same) d
  Decodes-append xs ys (cp ∷ cps) rest more last (b, e, d) d' = (
    b,
    read_codepoint-append enc xs ys (b, cp) e,
    subst (λ r. Decodes enc r (cps ++ more) last) (sym (drop-append_le b xs ys (consumed xs e).2))
        (Decodes-append (drop b xs) ys cps rest more last d d'),
  )

-- ===== src/DataLab/Swap.antt =====
-- `byteSwap` of bits.c and the switches of its reference: what each does to a byte of a word.
use orga_del_computador.Base.{
  ℕ, zero, suc, ◌+◌, ◌-◌, ◌*◌, ◌^◌, ◌<◌, ◌≡◌, refl, sym, ap, ap₂, ◌∙◌, ◌⊎◌, inl, inr, ◌≢◌, arith,
}
use orga_del_computador.Base.{bit_and as word_and, bit_or as word_or}
use orga_del_computador.Base.Bits.{bit_and_mask, bit_or_comm, bit_or-zero}
use mathlib.Core.Path.{subst}
use native.Mathlib.Decide.{ℕ_discrete}
use orga_del_computador.DataLab.Ints.{inv, sar, shl}
use orga_del_computador.DataLab.Functions.{byte_swap}
use orga_del_computador.DataLab.References.{byte_of, without_byte, test_byte_swap}
use orga_del_computador.DataLab.Bytes.{
  or_assoc, or_same, byte_at, and_byte, low_byte, cut, but_zero, but_one, but_two, but_three,
}

-- The reference.
byte_of_lem : (x n : ℕ) → x < 2 ^ 32 → n < 4 → byte_of x n ≡ byte_at x (8 * n)
unfolding byte_of
byte_of_lem x zero h hn = bit_and_mask 8 x ∙ omega arith
byte_of_lem x (suc zero) h hn = ground (arith, and_byte x 8)
byte_of_lem x (suc (suc zero)) h hn = ground (arith, and_byte x 16)
byte_of_lem x (suc (suc (suc zero))) h hn = ground (arith, and_byte x 24)
byte_of_lem x (suc (suc (suc (suc n)))) h hn = absurd (omega arith)

without_byte_lem : (x n : ℕ) → x < 2 ^ 32 → n < 4 → without_byte x n ≡ cut x (8 * n)
unfolding without_byte
without_byte_lem x zero h hn = but_zero x h
without_byte_lem x (suc zero) h hn = but_one x h
without_byte_lem x (suc (suc zero)) h hn = but_two x h
without_byte_lem x (suc (suc (suc zero))) h hn = but_three x h
without_byte_lem x (suc (suc (suc (suc n)))) h hn = absurd (omega arith)

-- `byteSwap`.
taken :
    (x n : ℕ)
    → x < 2 ^ 32
    → n < 4
    → word_and 0xFF (sar (word_and x (shl 0xFF (shl n 3))) (shl n 3)) ≡ byte_at x (8 * n)
taken x zero h hn = ground (arith, and_byte x 0, low_byte (byte_at x 0), low_byte (word_and x 255))
taken x (suc zero) h hn = ground (arith, and_byte x 8, low_byte (byte_at x 8))
taken x (suc (suc zero)) h hn = ground (arith, and_byte x 16, low_byte (byte_at x 16))
taken x (suc (suc (suc zero))) h hn = low_byte _ ∙ ground (arith, and_byte x 24)
taken x (suc (suc (suc (suc n)))) h hn = absurd (omega arith)

cleared : (x n : ℕ) → x < 2 ^ 32 → n < 4 → word_and x (inv (shl 0xFF (shl n 3))) ≡ cut x (8 * n)
cleared x zero h hn = but_zero x h
cleared x (suc zero) h hn = but_one x h
cleared x (suc (suc zero)) h hn = but_two x h
cleared x (suc (suc (suc zero))) h hn = but_three x h
cleared x (suc (suc (suc (suc n)))) h hn = absurd (omega arith)

-- How the bytes of a word meet.
cut-below : (x n : ℕ) → x < 2 ^ 32 → n < 4 → cut x (8 * n) < 2 ^ 32
cut-below x zero h hn = omega arith
cut-below x (suc zero) h hn = omega arith
cut-below x (suc (suc zero)) h hn = omega arith
cut-below x (suc (suc (suc zero))) h hn = omega arith
cut-below x (suc (suc (suc (suc n)))) h hn = absurd (omega arith)

shl_three : (n : ℕ) → n < 4 → shl n 3 ≡ 8 * n
shl_three n h = omega arith

byte_swap_lem :
    (x n m : ℕ)
    → x < 2 ^ 32
    → n < 4
    → m < 4
    → byte_swap x n m
      ≡ word_or
          (word_or (cut (cut x (8 * m)) (8 * n)) (shl (byte_at x (8 * m)) (8 * n)))
          (shl (byte_at x (8 * n)) (8 * m))
unfolding byte_swap
byte_swap_lem x n m h hn hm =
    rw
      (
        taken x n h hn,
        taken x m h hm,
        cleared x m h hm,
        cleared (cut x (8 * m)) n (cut-below x m h hm) hn,
        shl_three n hn,
        shl_three m hm,
      )
      refl

test_byte_swap_lem :
    (x n m : ℕ)
    → x < 2 ^ 32
    → n < 4
    → m < 4
    → test_byte_swap x n m
      ≡ word_or
          (word_or (cut (cut x (8 * n)) (8 * m)) (shl (byte_at x (8 * n)) (8 * m)))
          (shl (byte_at (cut x (8 * n)) (8 * m)) (8 * n))
unfolding test_byte_swap
test_byte_swap_lem x n m h hn hm =
    rw
      (
        byte_of_lem x n h hn,
        without_byte_lem x n h hn,
        byte_of_lem (cut x (8 * n)) m (cut-below x n h hn) hm,
        without_byte_lem (cut x (8 * n)) m (cut-below x n h hn) hm,
      )
      refl

-- Two bytes apart, the byte `n` and the byte `n + 1 + d`.
abbrev IsApart : ℕ → ℕ → ℕ → Type 0
IsApart x n m =
    (cut (cut x (8 * n)) (8 * m) ≡ cut (cut x (8 * m)) (8 * n))
    × (byte_at (cut x (8 * n)) (8 * m) ≡ byte_at x (8 * m))
    × (byte_at (cut x (8 * m)) (8 * n) ≡ byte_at x (8 * n))

apart : (x n d : ℕ) → x < 2 ^ 32 → n + 1 + d < 4 → IsApart x n (n + 1 + d)
apart x zero zero h b = (omega arith, omega arith, omega arith)
apart x zero (suc zero) h b = (omega arith, omega arith, omega arith)
apart x zero (suc (suc zero)) h b = (omega arith, omega arith, omega arith)
apart x zero (suc (suc (suc d))) h b = absurd (omega arith)
apart x (suc zero) zero h b = (omega arith, omega arith, omega arith)
apart x (suc zero) (suc zero) h b = (omega arith, omega arith, omega arith)
apart x (suc zero) (suc (suc d)) h b = absurd (omega arith)
apart x (suc (suc zero)) zero h b = (omega arith, omega arith, omega arith)
apart x (suc (suc zero)) (suc d) h b = absurd (omega arith)
apart x (suc (suc (suc n))) d h b = absurd (omega arith)

same : (x n : ℕ) → x < 2 ^ 32 → n < 4 → byte_at (cut x (8 * n)) (8 * n) ≡ 0
same x zero h hn = omega arith
same x (suc zero) h hn = omega arith
same x (suc (suc zero)) h hn = omega arith
same x (suc (suc (suc zero))) h hn = omega arith
same x (suc (suc (suc (suc n)))) h hn = absurd (omega arith)

or_swap : (a b c : ℕ) → word_or (word_or a b) c ≡ word_or (word_or a c) b
or_swap a b c = or_assoc a b c ∙ ap (word_or a) (bit_or_comm b c) ∙ sym (or_assoc a c b)

swap-IsApart : (x n m : ℕ) → x < 2 ^ 32 → n < 4 → m < 4 → (n < m) ⊎ (m < n) → IsApart x n m
swap-IsApart x n m h hn hm (inl less) =
    let e : n + 1 + (m - (n + 1)) ≡ m = omega arith in
    subst (IsApart x n) e (apart x n (m - (n + 1)) h (omega arith))
swap-IsApart x n m h hn hm (inr less) =
    let e : m + 1 + (n - (m + 1)) ≡ n = omega arith in
    let (order, one, other) = subst (IsApart x m) e (apart x m (n - (m + 1)) h (omega arith)) in
    (sym order, other, one)

apart_order : (n m : ℕ) → n ≢ m → (n < m) ⊎ (m < n)
apart_order n m other = ground (arith)

zero-shl : (k : ℕ) → shl 0 k ≡ 0
zero-shl k = ground arith

swap_same : (x n : ℕ) → x < 2 ^ 32 → n < 4 → byte_swap x n n ≡ test_byte_swap x n n
swap_same x n h hn =
    byte_swap_lem x n n h hn hn
    ∙ or_assoc _ _ _
    ∙ ap (word_or _) (or_same _)
    ∙ sym (bit_or-zero _)
    ∙ ap (word_or _) (sym (ap (λ t. shl t (8 * n)) (same x n h hn) ∙ zero-shl (8 * n)))
    ∙ sym (test_byte_swap_lem x n n h hn hn)

-- On every 32-bit pattern and for byte numbers below 4, equal ones included, `byteSwap` is its
-- reference, which cuts the two bytes out by two `switch` statements.
pub byte_swap-test_byte_swap :
    (x n m : ℕ) → x < 2 ^ 32 → n < 4 → m < 4 → byte_swap x n m ≡ test_byte_swap x n m
byte_swap-test_byte_swap x n m h hn hm = elim (ℕ_discrete n m) [
  | yes e ↦ rw e (swap_same x m h hm)
  | no other ↦
      let (order, one, two) = swap-IsApart x n m h hn hm (apart_order n m other) in
      byte_swap_lem x n m h hn hm
      ∙ or_swap _ _ _
      ∙ ap₂ (λ s t. word_or (word_or s (shl (byte_at x (8 * n)) (8 * m))) (shl t (8 * n)))
          (sym order) (sym one)
      ∙ sym (test_byte_swap_lem x n m h hn hm)
]

-- ===== src/DataLab/Bytes.antt =====
-- The bytes of a word under `&`, and laws of `|`.
use orga_del_computador.Base.{
  ℕ, zero, suc, ◌+◌, ◌-◌, ◌*◌, ◌/◌, ◌%◌, ◌^◌, ◌<◌, ◌≡◌, refl, ap, ap₂, ◌∙◌, arith,
}
use orga_del_computador.Base.{bit_and as word_and, bit_or as word_or}
use orga_del_computador.Base.Bits.{bit_and_mask, bit_and_shifted, bit_and_split, bit_or_step}
use native.Mathlib.Nat.{one-le-pow, mod-eq_of_lt}
use native.Mathlib.Decide.{ℕ_discrete}
use orga_del_computador.DataLab.TopBit.{word_and_comm}

-- `|` is associative and idempotent; `fuel` bounds the operands.
or_assoc_within :
    (fuel a b c : ℕ) → a + b + c < fuel → word_or (word_or a b) c ≡ word_or a (word_or b c)
or_assoc_within zero a b c small = absurd (omega arith)
or_assoc_within (suc fuel) a b c small = elim (ℕ_discrete (a + b + c) 0) [
  | yes none ↦
      let ea : a ≡ 0 = omega arith in
      let eb : b ≡ 0 = omega arith in let ec : c ≡ 0 = omega arith in rw (ea, eb, ec) refl
  | no some ↦ ground (
    arith,
    bit_or_step a b,
    bit_or_step b c,
    bit_or_step (word_or a b) c,
    bit_or_step a (word_or b c),
    or_assoc_within fuel (a / 2) (b / 2) (c / 2) (omega arith),
  )
]

pub or_assoc : (a b c : ℕ) → word_or (word_or a b) c ≡ word_or a (word_or b c)
or_assoc a b c = or_assoc_within (a + b + c + 1) a b c (omega arith)

or_same_within : (fuel a : ℕ) → a < fuel → word_or a a ≡ a
or_same_within zero a small = absurd (omega arith)
or_same_within (suc fuel) a small = elim (ℕ_discrete a 0) [
  | yes none ↦ rw none refl
  | no some ↦ ground (arith, bit_or_step a a, or_same_within fuel (a / 2) (omega arith))
]

pub or_same : (a : ℕ) → word_or a a ≡ a
or_same a = or_same_within (a + 1) a (omega arith)

-- The byte of `x` at bit `k`.
abbrev pub byte_at : ℕ → ℕ → ℕ
byte_at x k = x / 2 ^ k % 2 ^ 8

-- `x & (0xFF << k)` and `x & ~(0xFF << k)`.
pub and_byte : (x k : ℕ) → word_and x (255 * 2 ^ k) ≡ byte_at x k * 2 ^ k
and_byte x k = ground (arith, bit_and_shifted k 255 x, bit_and_mask 8 (x / 2 ^ k))

pub low_byte : (x : ℕ) → word_and 0xFF x ≡ x % 2 ^ 8
low_byte x = word_and_comm 0xFF x ∙ bit_and_mask 8 x

but_byte_split :
    (k j x p v r : ℕ)
    → v < 2 ^ 8
    → r < 2 ^ k
    → p < 2 ^ j
    → x ≡ (p * 2 ^ 8 + v) * 2 ^ k + r
    → word_and x (((2 ^ j - 1) * 2 ^ 8) * 2 ^ k + (2 ^ k - 1)) ≡ (p * 2 ^ 8) * 2 ^ k + r
but_byte_split k j x p v r hv hr hp e =
    let above : (p * 2 ^ 8 + v) / 2 ^ 8 ≡ p = omega arith in
    let p_fits : p % 2 ^ j ≡ p = mod-eq_of_lt hp in
    let r_fits : r % 2 ^ k ≡ r = mod-eq_of_lt hr in
    let upper : word_and (p * 2 ^ 8 + v) ((2 ^ j - 1) * 2 ^ 8) ≡ p * 2 ^ 8 =
      bit_and_shifted 8 (2 ^ j - 1) (p * 2 ^ 8 + v)
      ∙ ap (λ t. word_and t (2 ^ j - 1) * 2 ^ 8) above
      ∙ ap (λ t. t * 2 ^ 8) (bit_and_mask j p ∙ p_fits) in
    rw e (
      bit_and_split k (p * 2 ^ 8 + v) ((2 ^ j - 1) * 2 ^ 8) r (2 ^ k - 1) hr
        (omega (arith, one-le-pow k 2))
      ∙ ap₂ (λ s t. s * 2 ^ k + t) upper (bit_and_mask k r ∙ r_fits))

-- A word without a byte.
abbrev pub cut : ℕ → ℕ → ℕ
cut x k = x / 2 ^ k / 2 ^ 8 * 2 ^ 8 * 2 ^ k + x % 2 ^ k

pub but_zero : (x : ℕ) → x < 2 ^ 32 → word_and x 0xFFFFFF00 ≡ cut x 0
but_zero x h =
    but_byte_split 0 24 x (x / 2 ^ 8) (x % 2 ^ 8) 0 (omega arith) (omega arith) (omega arith)
      (omega arith)
    ∙ omega arith

pub but_one : (x : ℕ) → x < 2 ^ 32 → word_and x 0xFFFF00FF ≡ cut x 8
but_one x h =
    but_byte_split 8 16 x (x / 2 ^ 16) (x / 2 ^ 8 % 2 ^ 8) (x % 2 ^ 8) (omega arith) (omega arith)
      (omega arith) (omega arith)
    ∙ omega arith

pub but_two : (x : ℕ) → x < 2 ^ 32 → word_and x 0xFF00FFFF ≡ cut x 16
but_two x h =
    but_byte_split 16 8 x (x / 2 ^ 24) (x / 2 ^ 16 % 2 ^ 8) (x % 2 ^ 16) (omega arith) (omega arith)
      (omega arith) (omega arith)
    ∙ omega arith

pub but_three : (x : ℕ) → x < 2 ^ 32 → word_and x 0x00FFFFFF ≡ cut x 24
but_three x h = bit_and_mask 24 x ∙ omega arith

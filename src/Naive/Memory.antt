-- ===== src/Naive/Memory.antt =====
-- A memory of bytes, with the numbers of eight bytes, lowest first, that a `size_t` takes.
use orga_del_computador.Base.{
  ℕ, zero, suc, ◌+◌, ◌-◌, ◌*◌, ◌/◌, ◌%◌, ◌^◌, ◌≤◌, ◌<◌, ◌≡◌, ◌⊎◌, arith, ◌&&◌, leb, ltb,
  if◌then◌else◌, List, [], ◌∷◌, refl,
}
use native.Mathlib.Numerals.{unary_clauses}

abbrev pub Bytes : Type 0
Bytes = ℕ → ℕ

-- The bytes of `size` from `p` on.
unfoldable pub store_size : Bytes → ℕ → ℕ → Bytes
store_size m p size a = if leb p a && ltb a (p + 8) then size / 2 ^ (8 * (a - p)) % 256 else m a

unfoldable pub load_size : Bytes → ℕ → ℕ
load_size m p =
    m p
    + m (p + 1) * 2 ^ 8
    + m (p + 2) * 2 ^ 16
    + m (p + 3) * 2 ^ 24
    + m (p + 4) * 2 ^ 32
    + m (p + 5) * 2 ^ 40
    + m (p + 6) * 2 ^ 48
    + m (p + 7) * 2 ^ 56

-- The ranges do not overlap, as libc asks for.
unfoldable pub memcpy : Bytes → ℕ → ℕ → ℕ → Bytes
memcpy m to from n a = if leb to a && ltb a (to + n) then m (from + (a - to)) else m a

unfoldable pub memset : Bytes → ℕ → ℕ → ℕ → Bytes
memset m p value n a = if leb p a && ltb a (p + n) then value else m a

byte_at :
    (m : Bytes) (p size k a : ℕ)
    → k < 8
    → a ≡ p + k
    → store_size m p size a ≡ size / 2 ^ (8 * k) % 256
unfolding store_size
byte_at m p size k a small e = let less : a - p ≡ k = omega arith in ground (arith, less)

pub load_size-store_size :
    (m : Bytes) (p size : ℕ) → size < 2 ^ 64 → load_size (store_size m p size) p ≡ size
unfolding load_size
load_size-store_size m p size small = omega (
  arith,
  byte_at m p size 0 p (omega arith) (omega arith),
  byte_at m p size 1 (p + 1) (omega arith) (omega arith),
  byte_at m p size 2 (p + 2) (omega arith) (omega arith),
  byte_at m p size 3 (p + 3) (omega arith) (omega arith),
  byte_at m p size 4 (p + 4) (omega arith) (omega arith),
  byte_at m p size 5 (p + 5) (omega arith) (omega arith),
  byte_at m p size 6 (p + 6) (omega arith) (omega arith),
  byte_at m p size 7 (p + 7) (omega arith) (omega arith),
)

pub store_size-outside :
    (m : Bytes) (p size a : ℕ) → (a < p) ⊎ (p + 8 ≤ a) → store_size m p size a ≡ m a
unfolding store_size
store_size-outside m p size a h = ground arith

-- A size is read from the same eight bytes.
pub load_size_same :
    (m m' : Bytes) (p : ℕ)
    → ((a : ℕ) → p ≤ a → a < p + 8 → m' a ≡ m a)
    → load_size m' p ≡ load_size m p
unfolding load_size
load_size_same m m' p same = omega (
  arith,
  same p (omega arith) (omega arith),
  same (p + 1) (omega arith) (omega arith),
  same (p + 2) (omega arith) (omega arith),
  same (p + 3) (omega arith) (omega arith),
  same (p + 4) (omega arith) (omega arith),
  same (p + 5) (omega arith) (omega arith),
  same (p + 6) (omega arith) (omega arith),
  same (p + 7) (omega arith) (omega arith),
)

-- The `n` bytes from `a` on.
abbrev pub bytes_at : Bytes → ℕ → ℕ → List ℕ
bytes_at m a zero = []
bytes_at m a (suc n) = m a ∷ bytes_at m (a + 1) n

pub bytes_at_same :
    (m m' : Bytes) (a b n : ℕ)
    → ((j : ℕ) → j < n → m' (b + j) ≡ m (a + j))
    → bytes_at m' b n ≡ bytes_at m a n
bytes_at_same m m' a b zero same = refl
bytes_at_same m m' a b (suc n) same =
    let head : m' b ≡ m a = simp unary_clauses at (same 0 (omega arith)) in
    let tail =
      bytes_at_same m m' (a + 1) (b + 1) n (λ j h. shifted j (same (j + 1) (omega arith))) in
    rw (head, tail) refl
  where
    shifted : (j : ℕ) → m' (b + (j + 1)) ≡ m (a + (j + 1)) → m' (b + 1 + j) ≡ m (a + 1 + j)
    shifted j e =
        let eb : b + 1 + j ≡ b + (j + 1) = omega arith in
        let ea : a + 1 + j ≡ a + (j + 1) = omega arith in rw (eb, ea) e

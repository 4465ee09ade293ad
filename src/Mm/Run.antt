-- ===== src/Mm/Run.antt =====
-- How a call of the allocator ends. The program may exit from `mm_checkheap`; a loop of the model
-- may run out of fuel, which the theorems exclude.
pub data Run {ℓ} (A : Type ℓ) : Type ℓ where
  ok : A → Run A
  exit : Run A
  out_of_fuel : Run A

infixl 5 ◌>>=◌ ◌>>◌
abbrev pub ◌>>=◌ {ℓ κ} : {A : Type ℓ} {B : Type κ} → Run A → (A → Run B) → Run B
ok a >>= k = k a
exit >>= k = exit
out_of_fuel >>= k = out_of_fuel

abbrev pub ◌>>◌ {ℓ} : {B : Type ℓ} → Run (Unit {0}) → Run B → Run B
m >> n = m >>= λ _. n

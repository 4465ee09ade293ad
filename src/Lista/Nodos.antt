-- ===== src/Lista/Nodos.antt =====
-- The nodes in memory, and how a function ends: it may dereference NULL or a node that was freed.
use orga_del_computador.Base.{ℕ, Bool, true, false, Option, none, some, ◌==◌, if◌then◌else◌}

pub record Nodo : Type 0 where
  pub elemento : ℕ
  pub siguiente : Option ℕ

abbrev pub nodo : ℕ → Option ℕ → Nodo
nodo e q = record { elemento = e; siguiente = q }

-- A pointer is an address or NULL.
abbrev pub Memoria : Type 0
Memoria = ℕ → Option Nodo

pub data Run (A : Type 0) : Type 0 where
  fault : Run A
  out_of_fuel : Run A
  ok : A → Run A

infixl 5 ◌>>=◌
abbrev pub ◌>>=◌ : {A B : Type 0} → Run A → (A → Run B) → Run B
fault >>= k = fault
out_of_fuel >>= k = out_of_fuel
ok a >>= k = k a

abbrev pub is_null : Option ℕ → Bool
is_null none = true
is_null (some a) = false

abbrev pub present : Option Nodo → Run Nodo
present none = fault
present (some n) = ok n

-- `*p`
unfoldable pub load : Memoria → Option ℕ → Run Nodo
load m none = fault
load m (some a) = present (m a)

unfoldable pub put : Memoria → Option ℕ → Option Nodo → Memoria
put m none c b = m b
put m (some a) c b = if b == a then c else m b

-- `free(NULL)` does nothing; a node that is not allocated cannot be freed.
unfoldable pub free : Memoria → Option ℕ → Run Memoria
unfolding load put
free m none = ok m
free m (some a) = load m (some a) >>= λ n. ok (put m (some a) none)

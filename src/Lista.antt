-- ===== src/Lista.antt =====
-- Tp2/lista.c: singly linked lists of pointers to elements.
pub mod Nodos
pub mod Segmento
pub mod Inserta
pub mod Enlaza
pub mod Borra
pub mod Cuelga
pub mod Posicion
pub mod Lee
mod Tests
use orga_del_computador.Base.{
  ℕ, zero, suc, ◌+◌, ◌-◌, Bool, true, false, ◌||◌, Option, none, some, ltb, leb, ◌==◌,
  if◌then◌else◌,
}
use orga_del_computador.Lista.Nodos.{
  Memoria, Nodo, nodo, Run, ok, fault, out_of_fuel, ◌>>=◌, load, put, free, is_null,
}

-- The struct; it lives outside the memory of the nodes, so a function that changes it returns it.
pub record Lista : Type 0 where
  pub inicio : Option ℕ
  pub cantidad : ℕ

-- A function returns its result with the list and the memory; `none` for the argument is NULL, and
-- `true` is the result 0, `false` is -1. `fresh` is what `malloc` returns. An `int` index that is
-- compared with `cantidad` is converted to `size_t`, so a negative one is a number above 2 ^ 63.
unfoldable pub crear_lista : Bool → Option Lista
crear_lista false = none
crear_lista true = some (record { inicio = none; cantidad = 0 })

unfoldable pub vacia_lista : Option Lista → Bool
vacia_lista none = true
vacia_lista (some l) = l.cantidad == 0 || is_null l.inicio

unfoldable pub elementos : Option Lista → ℕ
elementos none = 0
elementos (some l) = l.cantidad

-- `for (i = 0; i < n; ++i) nodo = nodo->siguiente;`
unfoldable pub avanzar : Memoria → ℕ → Option ℕ → Run (Option ℕ)
avanzar m zero p = ok p
avanzar m (suc n) p = do n0 ← load m p; avanzar m n n0.siguiente

-- `while (ultimo_nodo->siguiente) ultimo_nodo = ultimo_nodo->siguiente;` with fuel.
unfoldable pub hasta_el_final : Memoria → ℕ → Option ℕ → Run (Option ℕ)
hasta_el_final m zero p = out_of_fuel
hasta_el_final m (suc k) p = do
  n ← load m p
  let rest = hasta_el_final m k n.siguiente
  (if is_null n.siguiente then ok p else rest)

-- `p->siguiente = q`
unfoldable pub set_siguiente : Memoria → Option ℕ → Option ℕ → Run Memoria
set_siguiente m p q = do n ← load m p; ok (put m p (some (nodo n.elemento q)))

-- The new node `a` at the end, by whether the list is empty.
unfoldable pub al_final : ℕ → ℕ → Memoria → Lista → Bool → Run (Bool × Memoria × Option Lista)
unfolding set_siguiente hasta_el_final
al_final rounds a m l true =
    ok (true, m, some (record { inicio = some a; cantidad = l.cantidad + 1 }))
al_final rounds a m l false = do
  u ← hasta_el_final m rounds l.inicio
  m ← set_siguiente m u (some a)
  ok (true, m, some (record l { cantidad = l.cantidad + 1 }))

-- An element is a pointer, `none` for NULL. `rounds` bounds the walk to the end.
unfoldable pub insertar :
    ℕ → Option ℕ → Memoria → Option Lista → Option ℕ → Run (Bool × Memoria × Option Lista)
unfolding al_final vacia_lista
insertar rounds fresh m none elemento = ok (false, m, none)
insertar rounds fresh m (some l) none = ok (false, m, some l)
insertar rounds none m (some l) (some e) = ok (false, m, some l)
insertar rounds (some a) m (some l) (some e) =
    al_final rounds a (put m (some a) (some (nodo e none))) l (vacia_lista (some l))

-- The part of `insertar_en_posicion` behind its checks.
unfoldable pub enlazar : ℕ → ℕ → Memoria → Lista → ℕ → Run (Bool × Memoria × Option Lista)
unfolding set_siguiente avanzar
enlazar a e m l zero = ok (
  true,
  put m (some a) (some (nodo e l.inicio)),
  some (record { inicio = some a; cantidad = l.cantidad + 1 }),
)
enlazar a e m l (suc i) = do
  let m = put m (some a) (some (nodo e none))
  p ← avanzar m i l.inicio
  n ← load m p
  m ← set_siguiente m (some a) n.siguiente
  m ← set_siguiente m p (some a)
  ok (true, m, some (record l { cantidad = l.cantidad + 1 }))

unfoldable pub enlazar_nuevo :
    Option ℕ → ℕ → Memoria → Lista → ℕ → Run (Bool × Memoria × Option Lista)
unfolding enlazar
enlazar_nuevo none e m l indice = ok (false, m, some l)
enlazar_nuevo (some a) e m l indice = enlazar a e m l indice

unfoldable pub insertar_en_posicion :
    ℕ → Option ℕ → Memoria → Option Lista → Option ℕ → ℕ → Run (Bool × Memoria × Option Lista)
unfolding enlazar_nuevo
insertar_en_posicion rounds fresh m none elemento indice = ok (false, m, none)
insertar_en_posicion rounds fresh m (some l) none indice = ok (false, m, some l)
insertar_en_posicion rounds fresh m (some l) (some e) indice =
    if ltb l.cantidad indice
    then insertar rounds fresh m (some l) (some e)
    else enlazar_nuevo fresh e m l indice

-- `cantidad -= 1`, and `inicio = NULL` if it is 0 then.
unfoldable pub descontar : Lista → Lista
descontar l =
    if l.cantidad - 1 == 0
    then record { inicio = none; cantidad = l.cantidad - 1 }
    else record l { cantidad = l.cantidad - 1 }

unfoldable pub borrar_nodo : Memoria → Lista → Run (Bool × Memoria × Option Lista)
unfolding avanzar descontar
borrar_nodo m l = do
  p ← avanzar m (l.cantidad - 1) l.inicio
  m ← free m p
  ok (true, m, some (descontar l))

unfoldable pub borrar : Memoria → Option Lista → Run (Bool × Memoria × Option Lista)
unfolding borrar_nodo vacia_lista
borrar m none = ok (false, m, none)
borrar m (some l) = if vacia_lista (some l) then ok (false, m, some l) else borrar_nodo m l

-- The part of `borrar_de_posicion` behind its checks.
unfoldable pub desenlazar : Memoria → Lista → ℕ → Run (Bool × Memoria × Option Lista)
unfolding avanzar descontar set_siguiente
desenlazar m l zero = do
  n ← load m l.inicio
  m ← free m l.inicio
  ok (true, m, some (descontar (record l { inicio = n.siguiente })))
desenlazar m l (suc i) = do
  p ← avanzar m i l.inicio
  previo ← load m p
  n ← load m previo.siguiente
  m ← set_siguiente m p n.siguiente
  m ← free m previo.siguiente
  ok (true, m, some (descontar l))

unfoldable pub borrar_de_posicion : Memoria → Option Lista → ℕ → Run (Bool × Memoria × Option Lista)
unfolding desenlazar vacia_lista
borrar_de_posicion m none indice = ok (false, m, none)
borrar_de_posicion m (some l) indice =
    if vacia_lista (some l)
    then ok (false, m, some l)
    else if ltb l.cantidad indice
    then ok (false, m, some l)
    else desenlazar m l indice

-- The element of the node that is `n` nodes behind the first.
unfoldable pub elemento_de : Memoria → Lista → ℕ → Run (Option ℕ)
unfolding avanzar
elemento_de m l n = do p ← avanzar m n l.inicio; n0 ← load m p; ok (some n0.elemento)

unfoldable pub elemento_en_posicion : Memoria → Option Lista → ℕ → Run (Option ℕ)
unfolding elemento_de vacia_lista
elemento_en_posicion m none indice = ok none
elemento_en_posicion m (some l) indice =
    if vacia_lista (some l) || leb l.cantidad indice then ok none else elemento_de m l indice

unfoldable pub ultimo : Memoria → Option Lista → Run (Option ℕ)
unfolding elemento_de vacia_lista
ultimo m none = ok none
ultimo m (some l) = if vacia_lista (some l) then ok none else elemento_de m l (l.cantidad - 1)

-- `while (borrar(lista) == 0);` with fuel.
unfoldable pub vaciar : ℕ → Memoria → Option Lista → Run (Memoria × Option Lista)
vaciar zero m l = out_of_fuel
vaciar (suc k) m l = do
  (done, m, l) ← borrar m l
  let rest = vaciar k m l
  (if done then rest else ok (m, l))

-- The struct itself is freed at the end.
unfoldable pub destruir_lista : Memoria → Option Lista → Run (Bool × Memoria)
unfolding vaciar
destruir_lista m none = ok (false, m)
destruir_lista m (some l) = do (m, rest) ← vaciar (l.cantidad + 1) m (some l); ok (true, m)

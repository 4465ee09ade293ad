-- ===== src/Lista/Borra.antt =====
-- The deletions.
use orga_del_computador.Base.{
  ℕ, zero, suc, ◌+◌, ◌-◌, ◌<◌, ◌≡◌, refl, sym, ◌∙◌, ap, arith, true, false, Option, none, some, [],
  ◌∷◌, ◌++◌, length, length-append, if◌then◌else◌,
}
use mathlib.Core.Path.{subst}
use orga_del_computador.Lista.{
  Lista, vacia_lista, descontar, borrar_nodo, borrar, vaciar, destruir_lista,
}
use orga_del_computador.Lista.Nodos.{Memoria, Nodo, nodo, ok, put, free}
use orga_del_computador.Lista.Segmento.{
  Celdas, has, Segmento, load-some, Segmento-put, avanzar-Segmento, has-append, Segmento-split,
  Segmento-middle,
}
use orga_del_computador.Lista.Inserta.{IsLista, vacia_lista-count}

pub free-some :
    (m : Memoria) (b : ℕ) (n : Nodo) → m b ≡ some n → free m (some b) ≡ ok (put m (some b) none)
unfolding free
free-some m b n here = rw (load-some m here) refl

-- A list that ends at `q`, where `q` is not read.
abbrev pub IsCounted : Memoria → Lista → Celdas → Option ℕ → Type 0
IsCounted m l xs q = Segmento m l.inicio xs q × (l.cantidad ≡ length xs)

pub vacia_lista-append :
    (m : Memoria) (l : Lista) (front : Celdas) (b e : ℕ) (ys : Celdas) (q : Option ℕ)
    → IsCounted m l (front ++ ((b, e) ∷ ys)) q
    → vacia_lista (some l) ≡ false
vacia_lista-append m l [] b e ys q (chain, count) = vacia_lista-count m l b e ys q chain count
vacia_lista-append m l ((c, f) ∷ front) b e ys q (chain, count) =
    vacia_lista-count m l c f (front ++ ((b, e) ∷ ys)) q chain count

-- `borrar` frees the last node, and the one in front of it still leads to it.
pub borrar-last :
    (m : Memoria) (l : Lista) (front : Celdas) (b e : ℕ) (q : Option ℕ)
    → IsCounted m l (front ++ ((b, e) ∷ [])) q
    → borrar m (some l) ≡ ok (true, put m (some b) none, some (descontar l))
unfolding borrar borrar_nodo
borrar-last m l front b e q (chain, count) =
    let (p, walk, at) = avanzar-Segmento m front ((b, e) ∷ []) l.inicio q chain in
    let (r, here, new, own, end) = at in
    let n : l.cantidad - 1 ≡ length front =
      omega (arith, count, length-append front ((b, e) ∷ [])) in
    rw
      (
        vacia_lista-append m l front b e [] q (chain, count),
        n,
        walk,
        here,
        free-some m b (nodo e r) own,
      )
      refl

pub descontar-suc :
    (l : Lista) (n : ℕ) → l.cantidad ≡ suc (suc n) → descontar l ≡ record l { cantidad = suc n }
unfolding descontar
descontar-suc l n count = rw count (ground arith)

-- After the freed node's turn the list still leads to it, where it has other nodes.
pub borrado-dangling :
    (m : Memoria) (l : Lista) (front : Celdas) (b e : ℕ) (q : Option ℕ)
    → 0 < length front
    → IsCounted m l (front ++ ((b, e) ∷ [])) q
    → IsCounted (put m (some b) none) (descontar l) front (some b)
borrado-dangling m l [] b e q some_left s = absurd (omega arith)
borrado-dangling m l ((c, f) ∷ front) b e q some_left (chain, count) =
    let n : l.cantidad ≡ suc (suc (length front)) =
      omega (arith, count, length-append front ((b, e) ∷ [])) in
    let (r, before, behind, own, left, right) =
      Segmento-middle m ((c, f) ∷ front) b e [] l.inicio q chain in
    let (p, s, t) = Segmento-split m ((c, f) ∷ front) ((b, e) ∷ []) l.inicio q chain in
    let (r', at, new, here, end) = t in
    let s' = subst (λ v. Segmento m l.inicio ((c, f) ∷ front) v) at s in
    rw (descontar-suc l (length front) n)
      (Segmento-put m l.inicio ((c, f) ∷ front) (some b) b none before s', refl)

-- What is left is a list up to the freed node.
pub IsCounted-descontar :
    (m : Memoria) (l : Lista) (front : Celdas) (b e : ℕ) (q : Option ℕ)
    → IsCounted m l (front ++ ((b, e) ∷ [])) q
    → (q' : Option ℕ) × IsCounted (put m (some b) none) (descontar l) front q'
unfolding descontar
IsCounted-descontar m l [] b e q (chain, count) = rw count (none, (refl, refl))
IsCounted-descontar m l ((c, f) ∷ front) b e q s =
    (some b, borrado-dangling m l ((c, f) ∷ front) b e q (omega arith) s)

-- Every list with nodes has a last one.
abbrev pub Reversed : Celdas → Type 0
Reversed xs = (front : Celdas) × (b : ℕ) × (e : ℕ) × (xs ≡ front ++ ((b, e) ∷ []))

pub last_of : (a e : ℕ) (xs : Celdas) → Reversed ((a, e) ∷ xs)
last_of a e [] = ([], a, e, refl)
last_of a e ((b, f) ∷ xs) =
    let (front, c, g, whole) = last_of b f xs in ((a, e) ∷ front, c, g, ap (λ l. (a, e) ∷ l) whole)

-- All nodes are freed and no other one is changed.
abbrev pub IsFreed : Memoria → Memoria → Celdas → Type 0
IsFreed m m' xs = (a : ℕ) → m' a ≡ (if has a xs then none else m a)

IsFreed-last :
    (m m' : Memoria) (front : Celdas) (b e : ℕ)
    → IsFreed (put m (some b) none) m' front
    → IsFreed m m' (front ++ ((b, e) ∷ []))
unfolding put
IsFreed-last m m' front b e freed a = freed a ∙ ground (arith, has-append a front ((b, e) ∷ []))

vaciar-frees :
    (rounds : ℕ) (m : Memoria) (l : Lista) (xs : Celdas) (q : Option ℕ)
    → length xs < rounds
    → IsCounted m l xs q
    → (m' : Memoria) × (l' : Lista) × (vaciar rounds m (some l) ≡ ok (m', some l'))
      × IsFreed m m' xs
unfolding vaciar borrar vacia_lista
vaciar-frees zero m l xs q fuel s = absurd (omega arith)
vaciar-frees (suc k) m l [] q fuel (chain, count) = (m, l, rw count refl, λ a. refl)
vaciar-frees (suc k) m l ((a, e) ∷ xs) q fuel s =
    let (front, b, g, whole) = last_of a e xs in
    let s' = subst (λ ys. IsCounted m l ys q) whole s in
    let (q', t) = IsCounted-descontar m l front b g q s' in
    let n : length ((a, e) ∷ xs) ≡ length front + 1 =
      ap length whole ∙ length-append front ((b, g) ∷ []) in
    let (m', l', run, freed) =
      vaciar-frees k (put m (some b) none) (descontar l) front q' (omega (arith, n, fuel)) t in
    (
      m',
      l',
      rw (borrar-last m l front b g q s', run) refl,
      subst (IsFreed m m') (sym whole) (IsFreed-last m m' front b g freed),
    )

-- `destruir_lista` on a list of nodes that ends in NULL ends and succeeds; it frees every node of
-- the list and changes no other.
pub destruir_lista-frees :
    (m : Memoria) (l : Lista) (xs : Celdas)
    → IsLista m l xs
    → (m' : Memoria) × (destruir_lista m (some l) ≡ ok (true, m')) × IsFreed m m' xs
unfolding destruir_lista
destruir_lista-frees m l xs x =
    let (m', l', run, freed) =
      vaciar-frees (l.cantidad + 1) m l xs none (omega (arith, x.count)) (x.chain, x.count) in
    (m', rw run refl, freed)

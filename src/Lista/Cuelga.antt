-- ===== src/Lista/Cuelga.antt =====
-- An insertion behind `borrar`.
use orga_del_computador.Base.{
  ℕ, zero, suc, ◌+◌, ◌<◌, ◌≡◌, refl, sym, ◌∙◌, ap, arith, true, false, Option, none, some,
  Bool-cases, inl, inr, [], ◌∷◌, ◌++◌, length, length-append, ◌==◌, ==_iff,
}
use mathlib.Core.Path.{subst}
use mathlib.Core.List.{append_assoc}
use orga_del_computador.Lista.{Lista, hasta_el_final, al_final, insertar, descontar, borrar}
use orga_del_computador.Lista.Nodos.{Memoria, Nodo, nodo, ok, fault, load, put, is_null, free}
use orga_del_computador.Lista.Segmento.{
  Celdas, Segmento, load-some, Segmento-put, has-of_none, Segmento-middle,
}
use orga_del_computador.Lista.Inserta.{IsLista, put_self, put_other}
use orga_del_computador.Lista.Borra.{IsCounted, vacia_lista-append, borrar-last, borrado-dangling}

is_null-Segmento :
    (m : Memoria) (p : Option ℕ) (xs : Celdas) (b : ℕ)
    → Segmento m p xs (some b)
    → is_null p ≡ false
is_null-Segmento m p [] b s = rw s refl
is_null-Segmento m p ((a, e) ∷ xs) b s = rw s.1 refl

-- A walk to the end reaches a node that was freed.
hasta_el_final-fault :
    (m : Memoria) (rounds : ℕ) (p : Option ℕ) (xs : Celdas) (b : ℕ)
    → length xs < rounds
    → Segmento m p xs (some b)
    → m b ≡ none
    → hasta_el_final m rounds p ≡ fault
unfolding hasta_el_final load
hasta_el_final-fault m zero p xs b fuel s freed = absurd (omega arith)
hasta_el_final-fault m (suc k) p [] b fuel s freed = rw (s, freed) refl
hasta_el_final-fault m (suc k) p ((a, e) ∷ xs) b fuel (r, at, new, here, s) freed =
    rw (at, load-some m here)
      (rw (is_null-Segmento m r xs b s) (hasta_el_final-fault m k r xs b (omega arith) s freed))

apart_of_none : (m : Memoria) (b a : ℕ) (n : Nodo) → m b ≡ some n → m a ≡ none → (b == a) ≡ false
apart_of_none m b a n own free = elim (Bool-cases (b == a)) [
  | inl same ↦ let e : some n ≡ none = sym own ∙ ap m ((==_iff b a).0 same) ∙ free in cc
  | inr other ↦ other
]

put-none : (m : Memoria) (b a : ℕ) → m a ≡ none → put m (some b) none a ≡ none
unfolding put
put-none m b a free = ground (arith, free)

insertar-dangling :
    (rounds a g : ℕ) (m : Memoria) (l : Lista) (front : Celdas) (c f b : ℕ)
    → IsCounted m l (front ++ ((c, f) ∷ [])) (some b)
    → m a ≡ none
    → m b ≡ none
    → (b == a) ≡ false
    → length front + 1 < rounds
    → insertar rounds (some a) m (some l) (some g) ≡ fault
unfolding insertar al_final
insertar-dangling rounds a g m l front c f b (chain, count) fresh freed other fuel =
    let xs = front ++ ((c, f) ∷ []) in
    let n = some (nodo g none) in
    let s =
      Segmento-put m l.inicio xs (some b) a n (has-of_none m l.inicio xs (some b) a fresh chain)
        chain in
    rw
      (
        vacia_lista-append m l front c f [] (some b) (chain, count),
        hasta_el_final-fault (put m (some a) n) rounds l.inicio xs b
            (omega (arith, length-append front ((c, f) ∷ []))) s (put_other m a b n other ∙ freed),
      )
      refl

-- After `borrar` took the last node from a list of two nodes or more that ends in NULL, an
-- `insertar` with more rounds than nodes are left, whose `malloc` returns a node that was free
-- before dereferences the freed node: `borrar` leaves the link to it in the node before.
pub insertar-borrar :
    (rounds a g : ℕ) (m : Memoria) (l : Lista) (front : Celdas) (c f b e : ℕ)
    → IsLista m l (front ++ ((c, f) ∷ (b, e) ∷ []))
    → m a ≡ none
    → length front + 1 < rounds
    → (m' : Memoria) × (l' : Lista) × (borrar m (some l) ≡ ok (true, m', some l'))
      × (insertar rounds (some a) m' (some l') (some g) ≡ fault)
insertar-borrar rounds a g m l front c f b e x fresh fuel =
    let xs = front ++ ((c, f) ∷ []) in
    let s =
      subst (λ ys. IsCounted m l ys none) (sym (append_assoc front ((c, f) ∷ []) ((b, e) ∷ [])))
        (x.chain, x.count) in
    let (r, before, behind, own, left, right) = Segmento-middle m xs b e [] l.inicio none (s.0) in
    let other : (b == a) ≡ false = apart_of_none m b a (nodo e r) own fresh in
    let t = borrado-dangling m l xs b e none (omega (arith, length-append front ((c, f) ∷ []))) s in
    (
      put m (some b) none,
      descontar l,
      borrar-last m l xs b e none s,
      insertar-dangling rounds a g (put m (some b) none) (descontar l) front c f b t
          (put-none m b a fresh) (put_self m b none) other fuel,
    )

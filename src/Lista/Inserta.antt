-- ===== src/Lista/Inserta.antt =====
-- The insertions.
use orga_del_computador.Base.{
  ℕ, zero, suc, ◌+◌, ◌<◌, ◌≡◌, refl, sym, ◌∙◌, ap, arith, true, false, Option, none, some,
  Bool-cases, inl, inr, [], ◌∷◌, ◌++◌, length, length-append, ◌==◌, ==_iff,
}
use mathlib.Core.Path.{subst}
use orga_del_computador.Lista.{
  Lista, vacia_lista, hasta_el_final, set_siguiente, al_final, insertar,
}
use orga_del_computador.Lista.Nodos.{Memoria, Nodo, nodo, ok, put}
use orga_del_computador.Lista.Segmento.{
  Celdas, has, Segmento, load-some, Segmento-put, has-append, Segmento-join, has-of_none,
  Segmento-relink, Segmento-middle,
}

-- The list holds the nodes `xs`, ended by NULL.
pub record IsLista (m : Memoria) (l : Lista) (xs : Celdas) : Type 0 where
  pub chain : Segmento m l.inicio xs none
  pub count : l.cantidad ≡ length xs

-- `p->siguiente = q` at a node.
pub set_siguiente-some :
    (m : Memoria) (b e : ℕ) (q r : Option ℕ)
    → m b ≡ some (nodo e r)
    → set_siguiente m (some b) q ≡ ok (put m (some b) (some (nodo e q)))
unfolding set_siguiente
set_siguiente-some m b e q r here = rw (load-some m here) refl

-- The last node of a list that has one.
record Last (m : Memoria) (rounds : ℕ) (p : Option ℕ) (xs : Celdas) : Type 0 where
  pub front : Celdas
  pub dir : ℕ
  pub elemento : ℕ
  pub whole : xs ≡ front ++ ((dir, elemento) ∷ [])
  pub walk : hasta_el_final m rounds p ≡ ok (some dir)

hasta_el_final-Last :
    (m : Memoria) (rounds : ℕ) (p : Option ℕ) (a e : ℕ) (xs : Celdas)
    → length xs < rounds
    → Segmento m p ((a, e) ∷ xs) none
    → Last m rounds p ((a, e) ∷ xs)
unfolding hasta_el_final
hasta_el_final-Last m zero p a e xs fuel s = absurd (omega arith)
hasta_el_final-Last m (suc k) p a e [] fuel (r, at, new, here, s) = record {
  front = [];
  dir = a;
  elemento = e;
  whole = refl;
  walk = rw (at, load-some m here, s) refl;
}
hasta_el_final-Last m (suc k) p a e ((b, f) ∷ xs) fuel (r, at, new, here, s) =
    let t = hasta_el_final-Last m k r b f xs (omega arith) s in
    record {
      front = (a, e) ∷ t.front;
      dir = t.dir;
      elemento = t.elemento;
      whole = ap (λ l. (a, e) ∷ l) t.whole;
      walk = rw (at, load-some m here) (rw s.1 (rw (← s.1) t.walk));
    }

pub put_self : (m : Memoria) (a : ℕ) (c : Option Nodo) → put m (some a) c a ≡ c
unfolding put
put_self m a c = ground arith

pub put_other :
    (m : Memoria) (a b : ℕ) (c : Option Nodo) → (b == a) ≡ false → put m (some a) c b ≡ m b
unfolding put
put_other m a b c h = rw h refl

-- A node that is on the way is not one that is not.
pub has-other :
    (c a e : ℕ) (xs : Celdas) → has c xs ≡ true → has a xs ≡ false → has c ((a, e) ∷ []) ≡ false
has-other c a e xs on out = elim (Bool-cases (c == a)) [
  | inl same ↦ let h : has c xs ≡ false = rw ((==_iff c a).0 same) out in cc
  | inr other ↦ rw other refl
]

-- The end of `insertar` where the list has a last node.
al_final-Last :
    (rounds a : ℕ) (m : Memoria) (l : Lista) (b f : ℕ) (r : Option ℕ)
    → hasta_el_final m rounds l.inicio ≡ ok (some b)
    → m b ≡ some (nodo f r)
    → al_final rounds a m l false
      ≡ ok (
        true,
        put m (some b) (some (nodo f (some a))),
        some (record l { cantidad = l.cantidad + 1 }),
      )
unfolding al_final
al_final-Last rounds a m l b f r walk here =
    rw (walk, set_siguiente-some m b f (some a) r here) refl

-- The new node is linked behind the last one.
al_final-linked :
    (a e : ℕ) (m : Memoria) (p : Option ℕ) (front : Celdas) (b f : ℕ)
    → m a ≡ some (nodo e none)
    → has a (front ++ ((b, f) ∷ [])) ≡ false
    → Segmento m p (front ++ ((b, f) ∷ [])) none
    → Segmento
        (put m (some b) (some (nodo f (some a))))
        p
        ((front ++ ((b, f) ∷ [])) ++ ((a, e) ∷ []))
        none
al_final-linked a e m p front b f here new s =
    let other : (a == b) ≡ false = ground (arith, has-append a front ((b, f) ∷ []), new) in
    Segmento-join (put m (some b) (some (nodo f (some a)))) (front ++ ((b, f) ∷ [])) ((a, e) ∷ []) p
      (some a) none (λ c h. has-other c a e (front ++ ((b, f) ∷ [])) h new)
      (Segmento-relink m front b f p none (some a) s)
      (none, refl, refl, put_other m b a (some (nodo f (some a))) other ∙ here, refl)

-- A list with nodes is not empty, whatever its last node leads to.
pub vacia_lista-count :
    (m : Memoria) (l : Lista) (a e : ℕ) (xs : Celdas) (q : Option ℕ)
    → Segmento m l.inicio ((a, e) ∷ xs) q
    → l.cantidad ≡ length ((a, e) ∷ xs)
    → vacia_lista (some l) ≡ false
unfolding vacia_lista
vacia_lista-count m l a e xs q chain count = rw (count, chain.1) (ground arith)

-- A list with nodes is not empty.
pub vacia_lista-IsLista :
    (m : Memoria) (l : Lista) (a e : ℕ) (xs : Celdas)
    → IsLista m l ((a, e) ∷ xs)
    → vacia_lista (some l) ≡ false
unfolding vacia_lista
vacia_lista-IsLista m l a e xs x = vacia_lista-count m l a e xs none x.chain x.count

-- `insertar` puts an element at the end.
abbrev pub Appended : ℕ → ℕ → ℕ → Memoria → Lista → Celdas → Type 0
Appended rounds a e m l xs =
    (m' : Memoria) × (l' : Lista) × (insertar rounds (some a) m (some l) (some e)
      ≡ ok (true, m', some l'))
    × IsLista m' l' (xs ++ ((a, e) ∷ []))

module _ (rounds a e : ℕ) (m : Memoria) (l : Lista) where
  insertar-Last :
      (xs : Celdas)
      → l.cantidad ≡ length xs
      → vacia_lista (some l) ≡ false
      → has a xs ≡ false
      → Segmento (put m (some a) (some (nodo e none))) l.inicio xs none
      → Last (put m (some a) (some (nodo e none))) rounds l.inicio xs
      → Appended rounds a e m l xs
  unfolding insertar
  insertar-Last xs count full new s t =
      let n = some (nodo e none) in
      let s' = subst (λ ys. Segmento (put m (some a) n) l.inicio ys none) t.whole s in
      let new' = subst (λ ys. has a ys ≡ false) t.whole new in
      let (r, before, behind, own, left, right) =
        Segmento-middle (put m (some a) n) t.front t.dir t.elemento [] l.inicio none s' in
      (
        put (put m (some a) n) (some t.dir) (some (nodo t.elemento (some a))),
        record l { cantidad = l.cantidad + 1 },
        rw full (al_final-Last rounds a (put m (some a) n) l t.dir t.elemento r t.walk own),
        record {
          chain =
              subst
                (λ ys.
                  Segmento (put (put m (some a) n) (some t.dir) (some (nodo t.elemento (some a))))
                    l.inicio (ys ++ ((a, e) ∷ [])) none)
                (sym t.whole)
                (al_final-linked a e (put m (some a) n) l.inicio t.front t.dir t.elemento
                  (put_self m a n) new' s');
          count = omega (arith, count, length-append xs ((a, e) ∷ []));
        },
      )

  -- On a list of nodes that ends in NULL, with a fresh node from `malloc` and more rounds than
  -- nodes, `insertar` succeeds and leaves the list with the new element at its end.
  pub insertar-IsLista :
      (xs : Celdas) → m a ≡ none → IsLista m l xs → length xs < rounds → Appended rounds a e m l xs
  unfolding insertar vacia_lista al_final
  insertar-IsLista [] fresh x fuel = (
    put m (some a) (some (nodo e none)),
    record { inicio = some a; cantidad = l.cantidad + 1 },
    rw x.count refl,
    record {
      chain = (none, refl, refl, put_self m a (some (nodo e none)), refl);
      count = omega (arith, x.count);
    },
  )
  insertar-IsLista ((b, f) ∷ xs) fresh x fuel =
      let n = some (nodo e none) in
      let new = has-of_none m l.inicio ((b, f) ∷ xs) none a fresh x.chain in
      let s = Segmento-put m l.inicio ((b, f) ∷ xs) none a n new x.chain in
      insertar-Last ((b, f) ∷ xs) x.count (vacia_lista-IsLista m l b f xs x) new s
        (hasta_el_final-Last (put m (some a) n) rounds l.inicio b f xs (omega arith) s)

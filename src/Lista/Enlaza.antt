-- ===== src/Lista/Enlaza.antt =====
-- The insertion at a position.
use orga_del_computador.Base.{
  ℕ, suc, ◌+◌, ◌≡◌, refl, sym, ◌∙◌, arith, true, false, Option, none, some, [], ◌∷◌, ◌++◌, length,
  length-append, le→ltb, ◌==◌,
}
use mathlib.Core.Path.{subst}
use mathlib.Core.List.{append_assoc}
use orga_del_computador.Lista.{Lista, enlazar, enlazar_nuevo, insertar_en_posicion}
use orga_del_computador.Lista.Nodos.{Memoria, nodo, ok, put}
use orga_del_computador.Lista.Segmento.{
  Celdas, has, Segmento, load-some, Segmento-put, avanzar-Segmento, has-append, Segmento-join,
  has-of_none, Segmento-relink, Segmento-middle, Segmento-apart,
}
use orga_del_computador.Lista.Inserta.{IsLista, set_siguiente-some, put_self, put_other, has-other}
use orga_del_computador.Lista.Borra.{last_of}

abbrev Linked : Memoria → Lista → ℕ → ℕ → ℕ → Celdas → Type 0
Linked m l a e indice xs =
    (m' : Memoria) × (l' : Lista) × (enlazar a e m l indice ≡ ok (true, m', some l'))
    × IsLista m' l' xs

-- The new node between the node `c` and what it leads to.
link :
    (m : Memoria) (p r q : Option ℕ) (front : Celdas) (c f a e : ℕ) (ys : Celdas)
    → Segmento m p (front ++ ((c, f) ∷ [])) r
    → Segmento m r ys q
    → m a ≡ some (nodo e r)
    → has a ((front ++ ((c, f) ∷ [])) ++ ys) ≡ false
    → has c ys ≡ false
    → ((b : ℕ) → has b (front ++ ((c, f) ∷ [])) ≡ true → has b ys ≡ false)
    → Segmento
        (put m (some c) (some (nodo f (some a))))
        p
        ((front ++ ((c, f) ∷ [])) ++ ((a, e) ∷ ys))
        q
link m p r q front c f a e ys left right here out out_c apart =
    let xs = front ++ ((c, f) ∷ []) in
    let m' = put m (some c) (some (nodo f (some a))) in
    let other : (a == c) ≡ false =
      ground (arith, out, has-append a xs ys, has-append a front ((c, f) ∷ [])) in
    let out_xs : has a xs ≡ false = ground (arith, out, has-append a xs ys) in
    let out_ys : has a ys ≡ false = ground (arith, out, has-append a xs ys) in
    Segmento-join m' xs ((a, e) ∷ ys) p (some a) q
      (λ b h. let k = has-other b a e xs h out_xs in let k' = apart b h in ground arith)
      (Segmento-relink m front c f p r (some a) left)
      (
        r,
        refl,
        out_ys,
        put_other m c a (some (nodo f (some a))) other ∙ here,
        Segmento-put m r ys q c (some (nodo f (some a))) out_c right,
      )

module _ (m : Memoria) (l : Lista) (a e : ℕ) (fresh : m a ≡ none) where
  -- The node `a` is written twice.
  elsewhere :
      (e : ℕ) (r p : Option ℕ) (xs : Celdas) (q : Option ℕ)
      → has a xs ≡ false
      → Segmento m p xs q
      → Segmento (put (put m (some a) (some (nodo e none))) (some a) (some (nodo e r))) p xs q
  elsewhere e r p xs q out s =
      Segmento-put (put m (some a) (some (nodo e none))) p xs q a (some (nodo e r)) out
        (Segmento-put m p xs q a (some (nodo e none)) out s)

  enlazar-behind :
      (front : Celdas) (c f : ℕ) (ys : Celdas)
      → l.cantidad ≡ length ((front ++ ((c, f) ∷ [])) ++ ys)
      → Segmento m l.inicio ((front ++ ((c, f) ∷ [])) ++ ys) none
      → Linked m l a e (length (front ++ ((c, f) ∷ []))) ((front ++ ((c, f) ∷ [])) ++ ((a, e) ∷ ys))
  unfolding enlazar
  enlazar-behind front c f ys n' s =
      let xs = front ++ ((c, f) ∷ []) in
      let out = has-of_none m l.inicio (xs ++ ys) none a fresh s in
      let m1 = put m (some a) (some (nodo e none)) in
      let s1 = Segmento-put m l.inicio (xs ++ ys) none a (some (nodo e none)) out s in
      let s2 =
        subst (λ zs. Segmento m1 l.inicio zs none) (append_assoc front ((c, f) ∷ []) ys) s1 in
      let (here, walk, at) = avanzar-Segmento m1 front ((c, f) ∷ ys) l.inicio none s2 in
      let (r, before, out_c, own, left, right) =
        Segmento-middle m front c f ys l.inicio none
          (subst (λ zs. Segmento m l.inicio zs none) (append_assoc front ((c, f) ∷ []) ys) s) in
      let n = some (nodo e r) in
      let m2 = put m1 (some a) n in
      let out_xs : has a xs ≡ false = ground (arith, out, has-append a xs ys) in
      let out_ys : has a ys ≡ false = ground (arith, out, has-append a xs ys) in
      let other : (c == a) ≡ false = ground (arith, out_xs, has-append a front ((c, f) ∷ [])) in
      let own1 = put_other m a c (some (nodo e none)) other ∙ own in
      let own2 = put_other m1 a c n other ∙ own1 in
      let i : length xs ≡ suc (length front) = omega (arith, length-append front ((c, f) ∷ [])) in
      (
        put m2 (some c) (some (nodo f (some a))),
        record l { cantidad = l.cantidad + 1 },
        rw i (
            rw
              (
                walk,
                at.1,
                load-some m1 own1,
                set_siguiente-some m1 a e r none (put_self m a (some (nodo e none))),
                set_siguiente-some m2 c f (some a) r own2,
              )
              refl),
        record {
          chain =
              link m2 l.inicio r none front c f a e ys (elsewhere e r l.inicio xs r out_xs left)
                (elsewhere e r r ys none out_ys right) (put_self m1 a n) out out_c
                (Segmento-apart m xs ys l.inicio none s);
          count = omega (arith, n', length-append xs ys, length-append xs ((a, e) ∷ ys));
        },
      )

  enlazar-IsLista :
      (front ys : Celdas)
      → l.cantidad ≡ length (front ++ ys)
      → Segmento m l.inicio (front ++ ys) none
      → Linked m l a e (length front) (front ++ ((a, e) ∷ ys))
  unfolding enlazar
  enlazar-IsLista [] ys n s =
      let new = has-of_none m l.inicio ys none a fresh s in
      let c = some (nodo e l.inicio) in
      (
        put m (some a) c,
        record { inicio = some a; cantidad = l.cantidad + 1 },
        refl,
        record {
          chain = (l.inicio, refl, new, put_self m a c, Segmento-put m l.inicio ys none a c new s);
          count = omega (arith, n);
        },
      )
  enlazar-IsLista ((b, g) ∷ front) ys n s =
      let (front', c, f, whole) = last_of b g front in
      subst
        (λ xs.
          l.cantidad ≡ length (xs ++ ys)
          → Segmento m l.inicio (xs ++ ys) none
          → Linked m l a e (length xs) (xs ++ ((a, e) ∷ ys)))
        (sym whole) (enlazar-behind front' c f ys) n s

  -- On a list of nodes that ends in NULL, with a fresh node from `malloc`, `insertar_en_posicion`
  -- at any position up to the number of elements succeeds and puts the new element in front of the
  -- one at that position.
  pub insertar_en_posicion-IsLista :
      (rounds : ℕ) (front ys : Celdas)
      → IsLista m l (front ++ ys)
      → (m' : Memoria) × (l' : Lista) × (insertar_en_posicion rounds
            (some a)
            m
            (some l)
            (some e)
            (length front)
          ≡ ok (true, m', some l'))
        × IsLista m' l' (front ++ ((a, e) ∷ ys))
  unfolding insertar_en_posicion enlazar_nuevo
  insertar_en_posicion-IsLista rounds front ys x =
      let (m', l', run, new) = enlazar-IsLista front ys x.count x.chain in
      (
        m',
        l',
        rw (le→ltb l.cantidad (length front) (omega (arith, x.count, length-append front ys))) run,
        new,
      )

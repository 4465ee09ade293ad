-- ===== src/Lista/Posicion.antt =====
-- The deletion at a position.
use orga_del_computador.Base.{
  ℕ, suc, ◌+◌, ◌≡◌, refl, sym, ◌∙◌, arith, true, false, Option, none, some, [], ◌∷◌, ◌++◌, length,
  length-append, le→ltb, ◌==◌,
}
use mathlib.Core.Path.{subst}
use mathlib.Core.List.{append_assoc}
use orga_del_computador.Lista.{Lista, avanzar, descontar, desenlazar, borrar_de_posicion}
use orga_del_computador.Lista.Nodos.{Memoria, nodo, ok, put}
use orga_del_computador.Lista.Segmento.{
  Celdas, has, Segmento, load-some, Segmento-put, avanzar-Segmento, has-append, Segmento-split,
  Segmento-join, Segmento-relink, Segmento-middle, Segmento-apart,
}
use orga_del_computador.Lista.Inserta.{IsLista, put_self, put_other}
use orga_del_computador.Lista.Borra.{free-some, descontar-suc, last_of, vacia_lista-append}

-- The node `b` behind the node `c` is taken out of the way.
module _ (m : Memoria) (p q : Option ℕ) (front : Celdas) (c f b e : ℕ) (ys : Celdas) where
  -- What `c` and `b` hold, and what is between and behind.
  record Around : Type 0 where
    pub r : Option ℕ
    pub at_c : m c ≡ some (nodo f (some b))
    pub at_b : m b ≡ some (nodo e r)
    pub apart : (b == c) ≡ false
    pub left : Segmento m p (front ++ ((c, f) ∷ [])) (some b)
    pub right : Segmento m r ys q
    pub out_c : has c ys ≡ false
    pub out_b : has b ys ≡ false
    pub out_left : has b (front ++ ((c, f) ∷ [])) ≡ false
    pub apart_ys : (a : ℕ) → has a (front ++ ((c, f) ∷ [])) ≡ true → has a ys ≡ false
    pub here : Option ℕ
    pub walk : avanzar m (length front) p ≡ ok here
    pub at_here : here ≡ some c

  around : Segmento m p (front ++ ((c, f) ∷ (b, e) ∷ ys)) q → Around
  around s =
      let xs = front ++ ((c, f) ∷ []) in
      let s' : Segmento m p (xs ++ ((b, e) ∷ ys)) q =
        subst (λ l. Segmento m p l q) (sym (append_assoc front ((c, f) ∷ []) ((b, e) ∷ ys))) s in
      let (here, walk, (r, at, new, own, (r', at', behind_b, own', more))) =
        avanzar-Segmento m front ((c, f) ∷ (b, e) ∷ ys) p q s in
      let (t, before, behind, own_b, left, right) = Segmento-middle m xs b e ys p q s' in
      let (u, sl, sr) = Segmento-split m xs ((b, e) ∷ ys) p q s' in
      record {
        r = t;
        at_c = subst (λ v. m c ≡ some (nodo f v)) at' own;
        at_b = own_b;
        apart = ground (arith, new);
        left = subst (λ v. Segmento m p xs v) sr.1 sl;
        right = right;
        out_c = ground (arith, new);
        out_b = behind;
        out_left = before;
        apart_ys = λ a h. ground (arith, Segmento-apart m xs ((b, e) ∷ ys) p q s' a h);
        here = here;
        walk = walk;
        at_here = at;
      }

  -- The nodes that are left.
  unlinked :
      (x : Around)
      → Segmento
          (put (put m (some c) (some (nodo f x.r))) (some b) none)
          p
          ((front ++ ((c, f) ∷ [])) ++ ys)
          q
  unlinked x =
      let n = some (nodo f x.r) in
      let xs = front ++ ((c, f) ∷ []) in
      let out : has b (xs ++ ys) ≡ false =
        ground (arith, has-append b xs ys, x.out_b, x.out_left) in
      Segmento-put (put m (some c) n) p (xs ++ ys) q b none out (
        Segmento-join (put m (some c) n) xs ys p x.r q x.apart_ys
          (Segmento-relink m front c f p (some b) x.r x.left)
          (Segmento-put m x.r ys q c n x.out_c x.right))

-- `descontar` on a list of one or more nodes.
IsLista-descontar :
    (m : Memoria) (l : Lista) (xs : Celdas)
    → l.cantidad ≡ length xs + 1
    → Segmento m l.inicio xs none
    → IsLista m (descontar l) xs
unfolding descontar
IsLista-descontar m l [] count s = rw count record { chain = refl; count = refl }
IsLista-descontar m l ((a, e) ∷ xs) count s =
    rw (descontar-suc l (length xs) (omega (arith, count))) record { chain = s; count = refl }

-- What `desenlazar` promises.
abbrev Unlinked : Memoria → Lista → ℕ → ℕ → Celdas → Type 0
Unlinked m l b indice xs =
    (m' : Memoria) × (l' : Lista) × (desenlazar m l indice ≡ ok (true, m', some l'))
    × (m' b ≡ none)
    × IsLista m' l' xs

-- What `borrar_de_posicion` promises.
abbrev pub Removed : Memoria → Lista → ℕ → ℕ → Celdas → Type 0
Removed m l b indice xs =
    (m' : Memoria) × (l' : Lista) × (borrar_de_posicion m (some l) indice ≡ ok (true, m', some l'))
    × (m' b ≡ none)
    × IsLista m' l' xs

module _ (m : Memoria) (l : Lista) where
  desenlazar-suc :
      (front : Celdas) (c f b e : ℕ) (ys : Celdas)
      → (x : Around m l.inicio none front c f b e ys)
      → desenlazar m l (suc (length front))
        ≡ ok (true, put (put m (some c) (some (nodo f x.r))) (some b) none, some (descontar l))
  unfolding desenlazar put
  desenlazar-suc front c f b e ys x =
      rw
        (
          x.walk,
          x.at_here,
          load-some m x.at_c,
          load-some m x.at_b,
          free-some (put m (some c) (some (nodo f x.r))) b (nodo e x.r)
              (put_other m c b (some (nodo f x.r)) x.apart ∙ x.at_b),
        )
        refl

  desenlazar-behind :
      (front : Celdas) (c f b e : ℕ) (ys : Celdas)
      → l.cantidad ≡ length ((front ++ ((c, f) ∷ [])) ++ ys) + 1
      → Segmento m l.inicio ((front ++ ((c, f) ∷ [])) ++ ((b, e) ∷ ys)) none
      → Unlinked m l b (length (front ++ ((c, f) ∷ []))) ((front ++ ((c, f) ∷ [])) ++ ys)
  desenlazar-behind front c f b e ys n s =
      let s' =
        subst (λ xs. Segmento m l.inicio xs none) (append_assoc front ((c, f) ∷ []) ((b, e) ∷ ys))
          s in
      let x = around m l.inicio none front c f b e ys s' in
      let m' = put (put m (some c) (some (nodo f x.r))) (some b) none in
      let i : length (front ++ ((c, f) ∷ [])) ≡ suc (length front) =
        omega (arith, length-append front ((c, f) ∷ [])) in
      (
        m',
        descontar l,
        rw i (desenlazar-suc front c f b e ys x),
        put_self (put m (some c) (some (nodo f x.r))) b none,
        IsLista-descontar m' l ((front ++ ((c, f) ∷ [])) ++ ys) n
            (unlinked m l.inicio none front c f b e ys x),
      )

  desenlazar-IsLista :
      (front : Celdas) (b e : ℕ) (ys : Celdas)
      → l.cantidad ≡ length (front ++ ys) + 1
      → Segmento m l.inicio (front ++ ((b, e) ∷ ys)) none
      → Unlinked m l b (length front) (front ++ ys)
  unfolding desenlazar
  desenlazar-IsLista [] b e ys n (r, at, new, own, s) =
      let l' : Lista = record l { inicio = r } in
      (
        put m (some b) none,
        descontar l',
        rw (at, load-some m own, free-some m b (nodo e r) own) refl,
        put_self m b none,
        IsLista-descontar (put m (some b) none) l' ys n (Segmento-put m r ys none b none new s),
      )
  desenlazar-IsLista ((a, g) ∷ front) b e ys n s =
      let (front', c, f, whole) = last_of a g front in
      subst
        (λ xs.
          l.cantidad ≡ length (xs ++ ys) + 1
          → Segmento m l.inicio (xs ++ ((b, e) ∷ ys)) none
          → Unlinked m l b (length xs) (xs ++ ys))
        (sym whole) (desenlazar-behind front' c f b e ys) n s

  -- On a list of nodes that ends in NULL, `borrar_de_posicion` at the position of any of its nodes
  -- succeeds, frees exactly that node and leaves the list of the other nodes in their order, with
  -- their number.
  pub borrar_de_posicion-IsLista :
      (front : Celdas) (b e : ℕ) (ys : Celdas)
      → IsLista m l (front ++ ((b, e) ∷ ys))
      → Removed m l b (length front) (front ++ ys)
  unfolding borrar_de_posicion desenlazar
  borrar_de_posicion-IsLista front b e ys x =
      let full = vacia_lista-append m l front b e ys none (x.chain, x.count) in
      let n : l.cantidad ≡ length (front ++ ys) + 1 =
        omega (arith, x.count, length-append front ((b, e) ∷ ys), length-append front ys) in
      let inside = le→ltb l.cantidad (length front) (omega (arith, n, length-append front ys)) in
      let (m', l', run, freed, left) = desenlazar-IsLista front b e ys n x.chain in
      (m', l', rw (full, inside) run, freed, left)

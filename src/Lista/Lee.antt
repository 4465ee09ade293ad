-- ===== src/Lista/Lee.antt =====
-- What the list gives back, and the position just behind the end.
use orga_del_computador.Base.{
  ℕ, zero, suc, ◌-◌, ◌≤◌, ◌<◌, ◌≡◌, refl, sym, ap, arith, Option, none, some, Bool-cases, inl, inr,
  [], ◌∷◌, ◌++◌, length, length-append, leb, le→ltb,
}
use mathlib.Core.Path.{subst}
use orga_del_computador.Lista.{
  Lista, vacia_lista, avanzar, elemento_de, elemento_en_posicion, ultimo, desenlazar,
  borrar_de_posicion,
}
use orga_del_computador.Lista.Nodos.{Memoria, Nodo, nodo, ok, fault, load}
use orga_del_computador.Lista.Segmento.{Celdas, Segmento, load-some, avanzar-Segmento}
use orga_del_computador.Lista.Inserta.{IsLista, vacia_lista-IsLista}
use orga_del_computador.Lista.Borra.{last_of}

-- The elements as a sequence.
abbrev pub nth : ℕ → Celdas → Option ℕ
nth n [] = none
nth zero ((a, e) ∷ xs) = some e
nth (suc n) (x ∷ xs) = nth n xs

module _ (m : Memoria) where
  elemento_walk :
      (xs : Celdas) (p q : Option ℕ) (n : ℕ)
      → Segmento m p xs q
      → n < length xs
      → (p' : Option ℕ) × (d : Nodo) × (avanzar m n p ≡ ok p')
        × (load m p' ≡ ok d)
        × (some d.elemento ≡ nth n xs)
  unfolding avanzar
  elemento_walk [] p q n s inside = absurd (omega arith)
  elemento_walk ((a, e) ∷ xs) p q zero (r, at, new, here, s) inside =
      (p, nodo e r, refl, rw (at, load-some m here) refl, refl)
  elemento_walk ((a, e) ∷ xs) p q (suc n) (r, at, new, here, s) inside =
      let (p', d, walk, read, same) = elemento_walk xs r q n s (omega arith) in
      (p', d, rw (at, load-some m here) walk, read, same)

  elemento_de-nth :
      (l : Lista) (xs : Celdas) (n : ℕ)
      → IsLista m l xs
      → n < length xs
      → elemento_de m l n ≡ ok (nth n xs)
  unfolding elemento_de
  elemento_de-nth l xs n x inside =
      let (p, d, walk, read, same) = elemento_walk xs l.inicio none n x.chain inside in
      rw (walk, read) (ap (λ v. ok v) same)

  nth-outside : (xs : Celdas) (n : ℕ) → length xs ≤ n → nth n xs ≡ none
  nth-outside [] n outside = refl
  nth-outside (x ∷ xs) zero outside = absurd (omega arith)
  nth-outside (x ∷ xs) (suc n) outside = nth-outside xs n (omega arith)

  -- On a list of nodes that ends in NULL, `elemento_en_posicion` gives the element at the position
  -- in the sequence of the elements, and NULL at every position outside it.
  pub elemento_en_posicion-nth :
      (l : Lista) (xs : Celdas) (n : ℕ)
      → IsLista m l xs
      → elemento_en_posicion m (some l) n ≡ ok (nth n xs)
  unfolding elemento_en_posicion vacia_lista
  elemento_en_posicion-nth l [] n x = rw x.count refl
  elemento_en_posicion-nth l ((a, e) ∷ xs) n x =
      let full = vacia_lista-IsLista m l a e xs x in
      let read = elemento_de-nth l ((a, e) ∷ xs) n x in
      let none_there = nth-outside ((a, e) ∷ xs) n in
      elim (Bool-cases (leb l.cantidad n)) [
        | inl outside ↦
            rw (full, outside)
              (ap (λ v. ok v) (sym (none_there (ground (arith, outside, x.count)))))
        | inr inside ↦ rw (full, inside) (read (ground (arith, inside, x.count)))
      ]

  pub ultimo-nth :
      (l : Lista) (xs : Celdas) → IsLista m l xs → ultimo m (some l) ≡ ok (nth (length xs - 1) xs)
  unfolding ultimo vacia_lista
  ultimo-nth l [] x = rw x.count refl
  ultimo-nth l ((a, e) ∷ xs) x =
      let n : l.cantidad - 1 ≡ length ((a, e) ∷ xs) - 1 = omega (arith, x.count) in
      rw (vacia_lista-IsLista m l a e xs x, n)
        (elemento_de-nth l ((a, e) ∷ xs) (length ((a, e) ∷ xs) - 1) x (omega arith))

  avanzar-end :
      (front : Celdas) (b f : ℕ) (p : Option ℕ)
      → Segmento m p (front ++ ((b, f) ∷ [])) none
      → (p' : Option ℕ) × (avanzar m (length front) p ≡ ok p')
        × (r : Option ℕ) × (p' ≡ some b)
        × (m b ≡ some (nodo f r))
        × (r ≡ none)
  avanzar-end front b f p s =
      let (p', walk, (r, at, new, own, end)) = avanzar-Segmento m front ((b, f) ∷ []) p none s in
      (p', walk, r, at, own, end)

  -- On a list of one node or more that ends in NULL, `borrar_de_posicion` at the number of
  -- elements passes its tests and dereferences NULL.
  pub borrar_de_posicion-length :
      (l : Lista) (a e : ℕ) (xs : Celdas)
      → IsLista m l ((a, e) ∷ xs)
      → borrar_de_posicion m (some l) l.cantidad ≡ fault
  unfolding borrar_de_posicion desenlazar load
  borrar_de_posicion-length l a e xs x =
      let (front, b, f, whole) = last_of a e xs in
      let n : l.cantidad ≡ suc (length front) =
        omega (arith, x.count, length-append front ((b, f) ∷ []), ap (λ ys. length ys) whole) in
      let (p, walk, r, at, own, end) =
        avanzar-end front b f l.inicio (subst (λ ys. Segmento m l.inicio ys none) whole x.chain) in
      rw (vacia_lista-IsLista m l a e xs x, le→ltb l.cantidad l.cantidad (omega arith))
        (rw n (rw (walk, at, load-some m own, end) refl))

-- ===== src/Lista/Tests.antt =====
-- Runs of Tp2/lista.c on a list of two nodes.
use orga_del_computador.Base.{◌≡◌, refl, arith, true, none, some, [], ◌∷◌}
use orga_del_computador.Lista.{Lista, insertar, borrar, elemento_en_posicion, destruir_lista}
use orga_del_computador.Lista.Nodos.{Memoria, nodo, ok, fault, put}
use orga_del_computador.Lista.Segmento.{Celdas}
use orga_del_computador.Lista.Inserta.{IsLista, Appended, insertar-IsLista}
use orga_del_computador.Lista.Posicion.{Removed, borrar_de_posicion-IsLista}
use orga_del_computador.Lista.Borra.{IsFreed, destruir_lista-frees}
use orga_del_computador.Lista.Cuelga.{insertar-borrar}
use orga_del_computador.Lista.Lee.{elemento_en_posicion-nth}

abbrev two_memoria : Memoria
two_memoria =
    put (put (λ a. none) (some 16) (some (nodo 5 (some 32)))) (some 32) (some (nodo 7 none))

abbrev two_lista : Lista
two_lista = record { inicio = some 16; cantidad = 2 }

abbrev two_celdas : Celdas
two_celdas = (16, 5) ∷ (32, 7) ∷ []

two_lista-IsLista : IsLista two_memoria two_lista two_celdas
unfolding put
two_lista-IsLista = record {
  chain = (some 32, refl, refl, refl, (none, refl, refl, refl, refl));
  count = refl;
}

insertar-IsLista_example : Appended 3 48 9 two_memoria two_lista two_celdas
unfolding put
insertar-IsLista_example =
    insertar-IsLista 3 48 9 two_memoria two_lista two_celdas refl two_lista-IsLista (omega arith)

borrar_de_posicion-IsLista_example : Removed two_memoria two_lista 32 1 ((16, 5) ∷ [])
borrar_de_posicion-IsLista_example =
    borrar_de_posicion-IsLista two_memoria two_lista ((16, 5) ∷ []) 32 7 [] two_lista-IsLista

destruir_lista-frees_example :
    (m' : Memoria) × (destruir_lista two_memoria (some two_lista) ≡ ok (true, m'))
    × IsFreed two_memoria m' two_celdas
destruir_lista-frees_example =
    destruir_lista-frees two_memoria two_lista two_celdas two_lista-IsLista

insertar-borrar_example :
    (m' : Memoria) × (l' : Lista) × (borrar two_memoria (some two_lista) ≡ ok (true, m', some l'))
    × (insertar 3 (some 48) m' (some l') (some 9) ≡ fault)
unfolding put
insertar-borrar_example =
    insertar-borrar 3 48 9 two_memoria two_lista [] 16 5 32 7 two_lista-IsLista refl (omega arith)

elemento_en_posicion-nth_example : elemento_en_posicion two_memoria (some two_lista) 1 ≡ ok (some 7)
elemento_en_posicion-nth_example =
    elemento_en_posicion-nth two_memoria two_lista two_celdas 1 two_lista-IsLista

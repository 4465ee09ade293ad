-- ===== src/Tools/Tests.antt =====
-- ishow and fshow on small arguments.
use orga_del_computador.Base.{ℕ, ◌-◌, ◌^◌, ◌≡◌, refl, arith, List, [], ◌∷◌, inr, false}
use orga_del_computador.Tools.{Parsers, is_float, scan, scan_step}
use orga_del_computador.Tools.Ishow.{main, shown}
use orga_del_computador.Tools.Range.{signed_long, main-signed}
use orga_del_computador.Tools.Fshow.{show_float}
use orga_del_computador.Tools.Floats.{IsShown, show_float-IsShown}

-- The text `-6`, and parsers that read it.
abbrev minus_six : List ℕ
minus_six = 45 ∷ 54 ∷ []

abbrev parsers : Parsers
parsers = record { strtof = λ cs. (0, cs); strtoll = λ cs. 2 ^ 64 - 6 }

main-signed_example :
    (uf : ℕ) × (main parsers (minus_six ∷ []) ≡ shown uf (signed_long (2 ^ 64 - 6)) uf ∷ [])
unfolding is_float scan scan_step
main-signed_example = main-signed parsers minus_six (omega arith) refl (inr (omega arith))

-- The hexadecimal 0xE is no float.
hex_is_int : is_float (48 ∷ 120 ∷ 69 ∷ []) ≡ false
unfolding is_float scan scan_step
hex_is_int = refl

-- The float 1.5.
show_float-IsShown_example : IsShown 0 127 4194304 (show_float 0x3FC00000)
show_float-IsShown_example =
    show_float-IsShown 0 127 4194304 (omega arith) (omega arith) (omega arith)

-- ===== src/Mm/Block/Tags.antt =====
-- Writing the two boundary tags of a block.
use orga_del_computador.Base.{ℕ, ◌+◌, ◌-◌, ◌≤◌, ◌≡◌, ◌≢◌, arith, Bool}
use mathlib.Core.Path.{fun_ext}
use orga_del_computador.Mm.Words.{Words, pack, put, get_header, get_footer}
use orga_del_computador.Mm.Words.Laws.{pack-tag, footer_of_header}
use orga_del_computador.Mm.Layout.{Block, digit, tag, Fits, BlockAt}
use orga_del_computador.Mm.Layout.Frame.{SameOutside}

pub put_self : (m : Words) (a v : ℕ) → put m a v a ≡ v
unfolding put
put_self m a v = ground arith

pub put-ne : (m : Words) (a v x : ℕ) → x ≢ a → put m a v x ≡ m x
unfolding put
put-ne m a v x ne = ground arith

pub put_comm : (m : Words) (a c v w : ℕ) → a ≢ c → put (put m a v) c w ≡ put (put m c w) a v
unfolding put
put_comm m a c v w ne = fun_ext λ x. ground arith

-- `put(get_header(p), pack(s, u)); put(get_footer(p), pack(s, u));`
abbrev pub tagged : Words → ℕ → ℕ → Bool → Words
tagged m p s u =
    let m = put m (get_header p) (pack s (digit u)) in put m (get_footer m p) (pack s (digit u))

-- A new header at `a`, and a new footer at `c`.
module _ (m : Words) (p : ℕ) (b : Block) (low : 16 ≤ p) (f : Fits b) where
  pub two_tags-BlockAt : BlockAt (put (put m (p - 8) (tag b)) (p + b.size - 16) (tag b)) p b
  unfolding put
  two_tags-BlockAt = record { header = ground arith; footer = ground arith; fits = f }

  pub two_tags_same :
      SameOutside p (p + b.size) m (put (put m (p - 8) (tag b)) (p + b.size - 16) (tag b))
  unfolding put
  two_tags_same = (λ a h. ground (arith, f.room), λ a h. ground (arith, f.room))

  pub tagged-eq : tagged m p b.size b.used ≡ put (put m (p - 8) (tag b)) (p + b.size - 16) (tag b)
  unfolding get_header
  tagged-eq = rw (
    pack-tag b.size b.used f.aligned f.bounded,
    footer_of_header (put m (p - 8) (tag b)) p b (put_self m (p - 8) (tag b)) f,
  )

  pub tagged-BlockAt : BlockAt (tagged m p b.size b.used) p b
  tagged-BlockAt = rw tagged-eq two_tags-BlockAt

  pub tagged_same : SameOutside p (p + b.size) m (tagged m p b.size b.used)
  tagged_same = rw tagged-eq two_tags_same

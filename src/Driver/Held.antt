-- ===== src/Driver/Held.antt =====
-- The blocks of a trace that are allocated: index, address and size, the newest first.
use orga_del_computador.Base.{
  ℕ, ◌+◌, ◌-◌, ◌≤◌, ◌<◌, ◌≡◌, refl, ap, ◌⊎◌, inl, inr, arith, true, false, List, [], ◌∷◌, ◌++◌,
  ◌==◌, ==_iff, Bool-cases, ne→==,
}
use mathlib.Core.Path.{subst}
use orga_del_computador.Driver.Trace.{Range}
use orga_del_computador.Driver.Ranges.{overlaps_any, remove_range}
use orga_del_computador.Driver.Legal.{has_index, drop_index, drop_sized}
use orga_del_computador.Driver.Contract.{All, IsClear, AreSound}

pub record Held : Type 0 where
  pub index : ℕ
  pub ptr : ℕ
  pub size : ℕ

abbrev pub payloads : List Held → List (ℕ × ℕ)
payloads [] = []
payloads (b ∷ bs) = (b.ptr, b.size) ∷ payloads bs

abbrev pub ranges_of : List Held → List Range
ranges_of [] = []
ranges_of (b ∷ bs) = record { lo = b.ptr; hi = b.ptr + b.size - 1 } ∷ ranges_of bs

abbrev pub indexes : List Held → List ℕ
indexes [] = []
indexes (b ∷ bs) = b.index ∷ indexes bs

-- The sizes in use by their indexes.
abbrev pub sized : List Held → List (ℕ × ℕ)
sized [] = []
sized (b ∷ bs) = (b.index, b.size) ∷ sized bs

pub payloads-append : (xs ys : List Held) → payloads (xs ++ ys) ≡ payloads xs ++ payloads ys
payloads-append [] ys = refl
payloads-append (b ∷ xs) ys = ap (λ l. (b.ptr, b.size) ∷ l) (payloads-append xs ys)

-- The first block with an index.
pub record Found (i : ℕ) (bs : List Held) : Type 0 where
  pub before : List Held
  pub block : Held
  pub after : List Held
  pub whole : bs ≡ before ++ (block ∷ after)
  pub same_index : block.index ≡ i
  pub others : indexes (before ++ after) ≡ drop_index i (indexes bs)
  pub sizes : sized (before ++ after) ≡ drop_sized i (sized bs)

pub find_index : (i : ℕ) (bs : List Held) → has_index i (indexes bs) ≡ true → Found i bs
unfolding drop_index drop_sized
find_index i [] h = cc
find_index i (b ∷ bs) h = elim (Bool-cases (b.index == i)) [
  | inl here ↦ record {
    before = [];
    block = b;
    after = bs;
    whole = refl;
    same_index = (==_iff b.index i).0 here;
    others = rw here refl;
    sizes = rw here refl;
  }
  | inr there ↦
      let f = find_index i bs (rw there at h) in
      record {
        before = b ∷ f.before;
        block = f.block;
        after = f.after;
        whole = ap (λ l. b ∷ l) f.whole;
        same_index = f.same_index;
        others = rw there (ap (λ l. b.index ∷ l) f.others);
        sizes = rw there (ap (λ l. (b.index, b.size) ∷ l) f.sizes);
      }
]

module _ {ℓ} {A : Type ℓ} (P : A → Type 0) where
  pub All-middle :
      (xs : List A) (y : A) (ys : List A) → All P (xs ++ (y ∷ ys)) → P y × All P (xs ++ ys)
  All-middle [] y ys h = h
  All-middle (x ∷ xs) y ys (h, hs) = let (m, r) = All-middle xs y ys hs in (m, (h, r))

-- A payload that is clear of the others passes the test of `add_range`.
pub overlaps_any-clear :
    (lo hi ptr size : ℕ) (bs : List Held)
    → 0 < size
    → IsClear ptr size (payloads bs)
    → AreSound lo hi (payloads bs)
    → overlaps_any ptr (ptr + size - 1) (ranges_of bs) ≡ false
unfolding overlaps_any
overlaps_any-clear lo hi ptr size [] pos clear sound = refl
overlaps_any-clear lo hi ptr size (b ∷ bs) pos (apart, clear)
      (size_pos, aligned, low, high, own, sound) =
    ground (arith, overlaps_any-clear lo hi ptr size bs pos clear sound)

size-positive :
    (lo hi : ℕ) (xs : List (ℕ × ℕ)) (y : ℕ × ℕ) (ys : List (ℕ × ℕ))
    → AreSound lo hi (xs ++ (y ∷ ys))
    → 0 < y.1
size-positive lo hi [] y ys sound = sound.0
size-positive lo hi (x ∷ xs) y ys sound = size-positive lo hi xs y ys sound.5

-- `remove_range` takes the range of one block, since no other starts at the same address.
pub remove_range-held :
    (lo hi : ℕ) (before : List Held) (b : Held) (after : List Held)
    → AreSound lo hi (payloads (before ++ (b ∷ after)))
    → remove_range (ranges_of (before ++ (b ∷ after))) b.ptr ≡ ranges_of (before ++ after)
unfolding remove_range
remove_range-held lo hi [] b after sound = rw ((==_iff b.ptr b.ptr).1 refl) refl
remove_range-held lo hi (x ∷ before) b after (pos, aligned, low, high, clear, sound) =
    let split = payloads-append before (b ∷ after) in
    let (apart, others) =
      All-middle (λ (y : ℕ × ℕ). (x.ptr + x.size ≤ y.0) ⊎ (y.0 + y.1 ≤ x.ptr)) (payloads before)
        (b.ptr, b.size) (payloads after) (subst (IsClear x.ptr x.size) split clear) in
    let own =
      size-positive lo hi (payloads before) (b.ptr, b.size) (payloads after)
        (subst (AreSound lo hi) split sound) in
    rw (ne→== x.ptr b.ptr (λ e. omega arith)) (
      ap (λ l. record { lo = x.ptr; hi = x.ptr + x.size - 1 } ∷ l)
        (remove_range-held lo hi before b after sound))

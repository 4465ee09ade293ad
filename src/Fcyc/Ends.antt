-- ===== src/Fcyc/Ends.antt =====
-- `fcyc` takes samples until the kept values agree or there are enough of them.
use orga_del_computador.Base.{
  ap₂, ℕ, zero, suc, ◌+◌, ◌≤◌, ◌<◌, ◌≡◌, refl, sym, ◌∙◌, ap, arith, Bool, true, false, not, ◌&&◌,
  ◌⊎◌, inl, inr, Option, some, none, ltb, if◌then◌else◌, Bool-cases, length,
}
use orga_del_computador.Mm.Run.{ok, ◌>>=◌}
use orga_del_computador.Fcyc.{
  added, Doubles, Sampler, Meter, init_sampler, add_with, add_sample, converged_with, has_converged,
  clear, sample, fcyc_loop, result_with, fcyc,
}
use orga_del_computador.Fcyc.Insertion.{back}
use orga_del_computador.Fcyc.Best.{IsOrder, filled}
use orga_del_computador.Fcyc.Least.{IsLeast, filled-IsLeast, length-back}
use orga_del_computador.Fcyc.Clear.{IsClearable, clear-ends, IsClearable-behind}

if-taken : {A : Type 0} (b : Bool) (x y : A) → b ≡ true → (if b then x else y) ≡ x
if-taken b x y e = rw e refl

if-skipped : {A : Type 0} (b : Bool) (x y : A) → b ≡ false → (if b then x else y) ≡ y
if-skipped b x y e = rw e refl

module _ {D : Doubles} (c : Meter D) where
  open D use {Double, zero_double, less}

  -- The measurements of the counter that is in use.
  abbrev pub source : Bool → ℕ → Double
  source compensate i = if compensate then c.get_comp_counter i else c.get_counter i

  -- The cache need not be cleared, or can be.
  abbrev pub IsUsable : Sampler D → Type 0
  IsUsable s = (s.clear_cache ≡ false) ⊎ IsClearable c s

  -- The state behind `n` samples.
  record Sampled (k most : ℕ) (compensate : Bool) (n : ℕ) (s : Sampler D) : Type 0 where
    usable : IsUsable s
    same_kbest : s.kbest ≡ k
    same_maxsamples : s.maxsamples ≡ most
    same_compensate : s.compensate ≡ compensate
    count : s.samplecount ≡ n
    array : s.values ≡ some (filled less k (λ i. zero_double) (back n (source compensate)))

  cleared-Sampled :
      (k most : ℕ) (compensate : Bool) (n : ℕ) (s : Sampler D)
      → Sampled k most compensate n s
      → (s' : Sampler D) × ((if s.clear_cache then clear c s else ok s) ≡ ok s')
        × Sampled k most compensate n s'
  cleared-Sampled k most compensate n s t = elim (Bool-cases s.clear_cache) [
    | inr off ↦ (s, if-skipped _ _ _ off, t)
    | inl on ↦ elim t.usable [
      | inl off ↦ (s, if-skipped _ _ _ off, t)
      | inr u ↦
          let (y, e) = clear-ends c s u in
          (
            _,
            if-taken _ _ _ on ∙ e,
            record {
              usable = inr (IsClearable-behind c s u y);
              same_kbest = t.same_kbest;
              same_maxsamples = t.same_maxsamples;
              same_compensate = t.same_compensate;
              count = t.count;
              array = t.array;
            },
          )
    ]
  ]

  -- The state with one more sample in the array.
  abbrev next : Sampler D → (ℕ → Double) → Double → Sampler D
  next s array val = record s {
    values = some (added less s.kbest s.samplecount array val);
    samplecount = s.samplecount + 1;
  }

  IsUsable-next :
      (s : Sampler D) (array : ℕ → Double) (val : Double) → IsUsable s → IsUsable (next s array val)
  IsUsable-next s array val (inl off) = inl off
  IsUsable-next s array val (inr u) =
      inr (record { step = u.step; contents = u.contents; gets_buffer = u.gets_buffer })

  next-Sampled :
      (k most : ℕ) (compensate : Bool) (n : ℕ) (s : Sampler D)
      → Sampled k most compensate n s
      → Sampled k most compensate (suc n) (
          next s
            (filled less k (λ i. zero_double) (back n (source compensate)))
            (source s.compensate s.samplecount))
  next-Sampled k most compensate n s u =
      let array = filled less k (λ i. zero_double) (back n (source compensate)) in
      let length-eq : s.samplecount ≡ length (back n (source compensate)) =
        u.count ∙ sym (length-back n (source compensate)) in
      let val-eq : source s.compensate s.samplecount ≡ source compensate n =
        ap₂ source u.same_compensate u.count in
      record {
        usable = IsUsable-next s array _ u.usable;
        same_kbest = u.same_kbest;
        same_maxsamples = u.same_maxsamples;
        same_compensate = u.same_compensate;
        count = omega (arith, u.count);
        array = ap some (
            ap (λ j. added less j s.samplecount array (source s.compensate s.samplecount))
              u.same_kbest
            ∙ ap₂ (λ j x. added less k j array x) length-eq val-eq);
      }

  sample-Sampled :
      (k most : ℕ) (compensate : Bool) (n : ℕ) (s : Sampler D)
      → Sampled k most compensate n s
      → (s' : Sampler D) × (sample c s ≡ ok s') × Sampled k most compensate (suc n) s'
  unfolding sample add_sample add_with
  sample-Sampled k most compensate n s t =
      let (s1, e, u) = cleared-Sampled k most compensate n s t in
      let val = source s1.compensate s1.samplecount in
      let array = filled less k (λ i. zero_double) (back n (source compensate)) in
      (
        next s1 array val,
        ap (λ r. r >>= λ s. add_sample s (source s.compensate s.samplecount)) e
            ∙ ap (add_with s1 val) u.array,
        next-Sampled k most compensate n s1 u,
      )

  why_done :
      (b : Bool) (count limit : ℕ) {n most : ℕ}
      → (not b && ltb count limit) ≡ false
      → count ≡ suc n
      → limit ≡ most
      → (b ≡ true) ⊎ (most ≤ suc n)
  why_done true count limit e f g = inl refl
  why_done false count limit e f g = inr (ground (arith, e))

  -- The loop ends behind the first round in which the values agree or the samples are enough.
  fcyc_loop-ends :
      (k most : ℕ) (compensate : Bool) (fuel n : ℕ) (s : Sampler D)
      → Sampled k most compensate n s
      → 0 < fuel
      → most ≤ n + fuel
      → (s' : Sampler D) × (n' : ℕ) × (fcyc_loop c fuel s ≡ ok s')
        × Sampled k most compensate n' s'
        × (n < n')
        × ((n' ≤ suc n) ⊎ (n' ≤ most))
        × ((has_converged s' ≡ true) ⊎ (most ≤ n'))
  unfolding fcyc_loop
  fcyc_loop-ends k most compensate zero n s t some_fuel h = absurd (omega arith)
  fcyc_loop-ends k most compensate (suc fuel) n s t some_fuel h =
      let (s1, e, u) = sample-Sampled k most compensate n s t in
      elim (Bool-cases (not (has_converged s1) && ltb s1.samplecount s1.maxsamples)) [
        | inl more ↦
            let room : suc n < most = ground (arith, more, u.count, u.same_maxsamples) in
            let (s2, n', f, v, far, near, why) =
              fcyc_loop-ends k most compensate fuel (suc n) s1 u (omega arith) (omega arith) in
            (
              s2,
              n',
              rw e (if-taken _ _ _ more ∙ f),
              v,
              omega arith,
              inr (no_more n' near room),
              why,
            )
        | inr done ↦ (
          s1,
          suc n,
          rw e (if-skipped _ _ _ done),
          u,
          omega arith,
          inl (omega arith),
          why_done (has_converged s1) s1.samplecount s1.maxsamples done u.count u.same_maxsamples,
        )
      ]
    where
      no_more : (m : ℕ) → (m ≤ suc (suc n)) ⊎ (m ≤ most) → suc n < most → m ≤ most
      no_more m (inl a) room = omega arith
      no_more m (inr b) room = b

  converged_enough :
      (s : Sampler D) (o : Option (ℕ → Double))
      → converged_with s o ≡ true
      → s.kbest ≤ s.samplecount
  unfolding converged_with
  converged_enough s none e = cc
  converged_enough s (some v) e = ground arith

  -- With a positive `kbest`, samples in an order without NaN, and a cache that can be cleared
  -- where that is asked for, `fcyc` ends and returns the least of the samples that it took: one at
  -- least, and no more than `maxsamples` unless that is 0. It takes fewer than `maxsamples` only
  -- when it has `kbest` of them.
  pub fcyc-IsLeast :
      (s : Sampler D)
      → IsOrder less
      → 0 < s.kbest
      → IsUsable s
      → (v : Double) × (s' : Sampler D) × (n : ℕ) × (fcyc c s ≡ ok (v, s'))
        × IsLeast less (source s.compensate) n v
        × ((n ≤ 1) ⊎ (n ≤ s.maxsamples))
        × ((s.kbest ≤ n) ⊎ (s.maxsamples ≤ n))
  unfolding fcyc init_sampler result_with has_converged
  fcyc-IsLeast s o positive usable =
      let k = s.kbest in
      let (s1, n, e, t, far, near, why) =
        fcyc_loop-ends k s.maxsamples s.compensate (s.maxsamples + 1) 0 (init_sampler s)
          (record {
            usable = IsUsable-init usable;
            same_kbest = refl;
            same_maxsamples = refl;
            same_compensate = refl;
            count = refl;
            array = refl;
          })
          (omega arith) (omega arith) in
      (
        filled less k (λ i. zero_double) (back n (source s.compensate)) 0,
        record s1 { values = none },
        n,
        rw e (ap (result_with s1) t.array),
        filled-IsLeast less o n (source s.compensate) k (λ i. zero_double) positive far,
        near,
        reason s1 n t why,
      )
    where
      IsUsable-init : IsUsable s → IsUsable (init_sampler s)
      IsUsable-init (inl off) = inl off
      IsUsable-init (inr u) =
          inr (record { step = u.step; contents = u.contents; gets_buffer = u.gets_buffer })

      reason :
          (s1 : Sampler D) (n : ℕ)
          → Sampled s.kbest s.maxsamples s.compensate n s1
          → (has_converged s1 ≡ true) ⊎ (s.maxsamples ≤ n)
          → (s.kbest ≤ n) ⊎ (s.maxsamples ≤ n)
      reason s1 n t (inl agree) =
          inl (omega (arith, t.same_kbest, t.count, converged_enough s1 s1.values agree))
      reason s1 n t (inr many) = inr many

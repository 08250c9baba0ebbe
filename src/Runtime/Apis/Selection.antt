-- ===== src/Runtime/Apis/Selection.antt =====
-- When a benchmark is found.
use sub0_bangkok_challenges.Common.{
  String, Bool, true, false, ◌||◌, List, [], ◌∷◌, Result, ok, err, done, failed, panicked, Outcome,
  ◌≡◌, ◌≢◌, refl, inl, inr, Bool-cases, if◌then◌else◌, ap,
}
use sub0_bangkok_challenges.Runtime.Apis.Calls.{Types, or_return}
use sub0_bangkok_challenges.Runtime.Apis.Benchmarks.{
  Benchmark, benchmarks, Benchmarking, add_benchmarks, found, dispatch_benchmark,
}

-- A benchmark that the configuration does not select adds nothing, `add_benchmark!`.
abbrev pub SkipsOthers :
    {T : Types} → Benchmarking T → (T.BenchmarkConfig → Benchmark → Bool) → Type 0
SkipsOthers {T} B selects =
    (config : T.BenchmarkConfig) (keys : List T.StorageKey) (b : Benchmark)
    (batches : List T.BenchmarkBatch) (s : T.State)
    → selects config b ≡ false
    → B.add_benchmark config keys b batches s ≡ (done (ok batches), s)

abbrev pub any : {A : Type 0} → (A → Bool) → List A → Bool
any p [] = false
any p (x ∷ xs) = p x || any p xs

-- The items that pass a test, in their order.
abbrev pub chosen : {A : Type 0} → (A → Bool) → List A → List A
chosen p [] = []
chosen p (x ∷ xs) = if p x then x ∷ chosen p xs else chosen p xs

or_return-ext :
    {S A B : Type 0} (r : Outcome ⊥ (Result String A) × S)
    {k l : A → S → Outcome ⊥ (Result String B) × S}
    → ((a : A) (s : S) → k a s ≡ l a s)
    → or_return r k ≡ or_return r l
or_return-ext (done (ok a), s) e = e a s
or_return-ext (done (err x), s) e = refl
or_return-ext (failed x, s) e = refl
or_return-ext (panicked m, s) e = refl

or-false : (a b : Bool) → (a || b) ≡ false → (a ≡ false) × (b ≡ false)
or-false true b e = cc
or-false false b e = (refl, e)

module _ {T : Types} (B : Benchmarking T) (selects : T.BenchmarkConfig → Benchmark → Bool)
    (skips : SkipsOthers B selects) (config : T.BenchmarkConfig) where
  add_benchmarks-none :
      (bs : List Benchmark) (batches : List T.BenchmarkBatch) (s : T.State)
      → any (selects config) bs ≡ false
      → add_benchmarks B config bs batches s ≡ (done (ok batches), s)
  unfolding add_benchmarks
  add_benchmarks-none [] batches s e = refl
  add_benchmarks-none (b ∷ bs) batches s e =
      let (here, rest) = or-false (selects config b) (any (selects config) bs) e in
      rw (skips config B.whitelisted_storage_keys b batches s here)
        (add_benchmarks-none bs batches s rest)

  -- Going through the chosen benchmarks only is the same.
  add_benchmarks-chosen :
      (bs : List Benchmark) (batches : List T.BenchmarkBatch) (s : T.State)
      → add_benchmarks B config bs batches s
        ≡ add_benchmarks B config (chosen (selects config) bs) batches s
  unfolding add_benchmarks
  add_benchmarks-chosen [] batches s = refl
  add_benchmarks-chosen (b ∷ bs) batches s = elim (Bool-cases (selects config b)) [
    | inl picked ↦ rw (picked) (or_return-ext _ (add_benchmarks-chosen bs))
    | inr skipped ↦
        rw (skipped, skips config B.whitelisted_storage_keys b batches s skipped)
          (add_benchmarks-chosen bs batches s)
  ]

found-ok :
    {T : Types} (B : Benchmarking T) (batches bs : List T.BenchmarkBatch)
    → found B batches ≡ ok bs
    → bs ≢ []
unfolding found
found-ok B [] bs e = cc
found-ok B (b ∷ batches) bs e = λ n. cc

or_return-found :
    {T : Types} (B : Benchmarking T) (r : Outcome ⊥ (Result String (List T.BenchmarkBatch)))
    (s s' : T.State) (bs : List T.BenchmarkBatch)
    → or_return (r, s) (λ batches s'. (done (found B batches), s')) ≡ (done (ok bs), s')
    → bs ≢ []
or_return-found B (done (ok batches)) s s' bs e = found-ok B batches bs (cc)
or_return-found B (done (err x)) s s' bs e = cc
or_return-found B (failed x) s s' bs e = cc
or_return-found B (panicked m) s s' bs e = cc

module _ {T : Types} (B : Benchmarking T) (selects : T.BenchmarkConfig → Benchmark → Bool) where
  dispatch_benchmark-none :
      SkipsOthers B selects
      → (config : T.BenchmarkConfig) (s : T.State) → any (selects config) benchmarks ≡ false
      → dispatch_benchmark B config s ≡ (done (err "Benchmark not found for this pallet."), s)
  unfolding dispatch_benchmark found
  dispatch_benchmark-none skips config s e =
      rw (add_benchmarks-none B selects skips config benchmarks [] s e)

  -- If adding a benchmark that the configuration does not select changes nothing, the listed
  -- benchmarks that it selects are run, in their order, and no others. If it selects none, the
  -- answer is the error that there is none, and the state stays as it was. If batches are returned,
  -- there is at least one of them, and the configuration selects a listed benchmark.
  pub dispatch_benchmark-Found :
      SkipsOthers B selects
      → (config : T.BenchmarkConfig) (s : T.State)
      → (dispatch_benchmark B config s
          ≡ or_return
              (add_benchmarks B config (chosen (selects config) benchmarks) [] s)
              (λ batches s'. (done (found B batches), s')))
        × (any (selects config) benchmarks ≡ false
            → dispatch_benchmark B config s
              ≡ (done (err "Benchmark not found for this pallet."), s))
        × ((batches : List T.BenchmarkBatch) (s' : T.State)
            → dispatch_benchmark B config s ≡ (done (ok batches), s')
            → (batches ≢ []) × (any (selects config) benchmarks ≡ true))
  unfolding dispatch_benchmark
  dispatch_benchmark-Found skips config s = (
    ap (λ r. or_return r (λ batches s'. (done (found B batches), s')))
        (add_benchmarks-chosen B selects skips config benchmarks [] s),
    dispatch_benchmark-none skips config s,
    λ batches s' e. (
      or_return-found B _ _ s' batches e,
      elim (Bool-cases (any (selects config) benchmarks)) [
        | inl some_selected ↦ some_selected
        | inr none_selected ↦ absurd (cc (dispatch_benchmark-none skips config s none_selected))
      ],
    ),
  )

-- ===== src/Runtime/Apis/Benchmarks.antt =====
-- The benchmarks, with the cargo feature `runtime-benchmarks`: the list of
-- challenge-3/runtime/src/benchmarks.rs, and `Benchmark` of apis.rs. The macros `list_benchmarks!`
-- and `add_benchmarks!` go through the list, in its order.
use sub0_bangkok_challenges.Common.{
  ℕ, ◌%◌, ◌^◌, length, String, Bool, List, [], ◌∷◌, map, Result, ok, err, done,
}
use sub0_bangkok_challenges.Runtime.Apis.Calls.{Types, Bytes, Api, or_return, outcome_map}

-- `define_benchmarks!`
pub data Benchmark : Type 0 where
  frame_system pallet_timestamp pallet_balances pallet_sudo pallet_session pallet_message_queue :
      Benchmark

abbrev pub benchmarks : List Benchmark
benchmarks =
    frame_system ∷ pallet_timestamp ∷ pallet_balances ∷ pallet_sudo ∷ pallet_session
    ∷ pallet_message_queue ∷ []

-- The SDK's side.
pub record Benchmarking (T : Types) : Type 0 where
  pub list_benchmark : Bool → Benchmark → T.BenchmarkList
  pub storage_info : List T.StorageInfo
  pub whitelisted_storage_keys : List T.StorageKey
  -- `add_benchmark!`: the batches so far, and with those of this benchmark
  pub add_benchmark :
      T.BenchmarkConfig
      → List T.StorageKey
      → Benchmark
      → List T.BenchmarkBatch
      → Api T (Result String (List T.BenchmarkBatch))
  -- the parachain system's preparation, of the length of the code
  pub initialize_for_set_code_benchmark : ℕ → Api T (Unit {0})
  -- `System::assert_last_event`, of the event that a validation function was stored
  pub assert_validation_function_stored : Api T (Unit {0})

module _ {T : Types} (B : Benchmarking T) where
  -- `frame_system_benchmarking::Config`; a length is cast to `u32`.
  unfoldable pub setup_set_code_requirements : Bytes → Api T (Result String (Unit {0}))
  setup_set_code_requirements code s =
      let (r, s') = B.initialize_for_set_code_benchmark (length code % 2 ^ 32) s in
      (outcome_map (λ _. done (ok tt)) r, s')

  unfoldable pub verify_set_code : Api T (Unit {0})
  verify_set_code = B.assert_validation_function_stored

  unfoldable pub benchmark_metadata : Bool → List T.BenchmarkList × List T.StorageInfo
  benchmark_metadata extra = (map (B.list_benchmark extra) benchmarks, B.storage_info)

  -- `add_benchmarks!`, which an error ends.
  unfoldable pub add_benchmarks :
      T.BenchmarkConfig
      → List Benchmark
      → List T.BenchmarkBatch
      → Api T (Result String (List T.BenchmarkBatch))
  add_benchmarks config [] batches s = (done (ok batches), s)
  add_benchmarks config (b ∷ bs) batches s =
      or_return (B.add_benchmark config B.whitelisted_storage_keys b batches s)
        (add_benchmarks config bs)

  -- `if batches.is_empty() { return Err(..) }`
  unfoldable pub found : List T.BenchmarkBatch → Result String (List T.BenchmarkBatch)
  found [] = err "Benchmark not found for this pallet."
  found (batch ∷ batches) = ok (batch ∷ batches)

  unfoldable pub dispatch_benchmark :
      T.BenchmarkConfig → Api T (Result String (List T.BenchmarkBatch))
  dispatch_benchmark config s =
      or_return (add_benchmarks config benchmarks [] s) (λ batches s'. (done (found batches), s'))

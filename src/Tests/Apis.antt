-- ===== src/Tests/Apis.antt =====
-- The runtime APIs over pallets whose state is a number.
use Prim.Native.Nat.{min}
use sub0_bangkok_challenges.Common.{
  ℕ, ◌+◌, ◌*◌, ◌-◌, ◌^◌, ◌≡◌, ◌≢◌, String, Bool, true, false, none, some, List, [], ◌∷◌, ◌++◌, ok,
  err, done, if◌then◌else◌,
}
use sub0_bangkok_challenges.Runtime.Configs.{transaction_payment_config}
use sub0_bangkok_challenges.Runtime.Fees.{polynomial}
use sub0_bangkok_challenges.Runtime.Apis.Calls.{or_return, Types, Pallets}
use sub0_bangkok_challenges.Runtime.Apis.Benchmarks.{
  Benchmark, pallet_balances, benchmarks, Benchmarking, add_benchmarks, found, dispatch_benchmark,
}
use sub0_bangkok_challenges.Runtime.Apis.Selection.{
  chosen, SkipsOthers, any, dispatch_benchmark-Found,
}
use sub0_bangkok_challenges.Tests.Runtime.{from_rational, eval}

-- A benchmark's configuration is whether it asks for the pallet of balances.
abbrev pub types : Types
types = record {
  State = ℕ;
  Block = ℕ;
  Header = ℕ;
  Extrinsic = ℕ;
  Hash = ℕ;
  InherentData = ℕ;
  CheckInherentsResult = ℕ;
  ApplyExtrinsicResult = ℕ;
  TransactionSource = ℕ;
  TransactionValidity = ℕ;
  InclusionMode = ℕ;
  Metadata = ℕ;
  AuraId = ℕ;
  GrandpaId = ℕ;
  EquivocationProof = ℕ;
  KeyOwnershipProof = ℕ;
  AccountId = ℕ;
  RuntimeCall = ℕ;
  DispatchInfo = ℕ;
  FeeDetails = ℕ;
  UpgradeChecks = ℕ;
  TryStateSelect = ℕ;
  BenchmarkConfig = Bool;
  BenchmarkList = ℕ;
  BenchmarkBatch = String;
  StorageInfo = ℕ;
  StorageKey = ℕ;
}

abbrev pub pallets : Pallets types
pallets = record {
  aura_authorities = λ s. (done (1 ∷ []), s);
  grandpa_authorities = λ s. (done ((2, 1) ∷ []), s);
  grandpa_set_id = λ s. (done 0, s);
  execute_block = λ block s. (done tt, s + block);
  initialize_block = λ header s. (done 0, s + 1);
  apply_extrinsic = λ extrinsic s. (done 0, s + extrinsic);
  finalize_block = λ s. (done s, s);
  validate_transaction = λ source tx hash s. (done 0, s);
  offchain_worker = λ header s. (done tt, s);
  try_runtime_upgrade = λ checks s. (done (err "not upgraded"), s);
  try_execute_block = λ block root signatures select s. (done (err "not executed"), s);
  metadata = λ s. (done 0, s);
  metadata_at_version = λ v s. (done none, s);
  metadata_versions = λ s. (done (14 ∷ []), s);
  create_extrinsics = λ inherents s. (done [], s);
  check_extrinsics = λ inherents block s. (done 0, s);
  generate = λ seed s. (done ((s + 7) ∷ []), s + 1);
  decode_into_raw_public_keys =
      λ encoded s. (done (elim encoded [ [] ↦ none | key ∷ _ ↦ some ((key ∷ [], 6) ∷ []) ]), s);
  account_nonce = λ account s. (done 0, s);
  query_info = λ uxt len s. (done 0, s);
  query_fee_details = λ uxt len s. (done 0, s);
  query_call_info = λ call len s. (done 0, s);
  query_call_fee_details = λ call len s. (done 0, s);
  weight_to_fee = λ weight s.
      (done (eval (polynomial from_rational 1_000) (min weight.ref_time 1_000_000_000)), s);
  length_to_fee =
      λ length s. (done (min (transaction_payment_config.length_to_fee * length) (2 ^ 128 - 1)), s);
  build_state = λ config s. (done (ok tt), s);
  get_preset = λ id preset s. (done none, s);
}

abbrev selects : Bool → Benchmark → Bool
selects true pallet_balances = true
selects true _ = false
selects false _ = false

abbrev benchmarking : Benchmarking types
benchmarking = record {
  list_benchmark = λ extra b. 0;
  storage_info = [];
  whitelisted_storage_keys = [];
  add_benchmark = λ config keys b batches s.
      if selects config b
      then (done (ok (batches ++ ("balances" ∷ []))), s + 1)
      else (done (ok batches), s);
  initialize_for_set_code_benchmark = λ length s. (done tt, s + length);
  assert_validation_function_stored = λ s. (done tt, s);
}

benchmarking-SkipsOthers : SkipsOthers benchmarking selects
benchmarking-SkipsOthers config keys b batches s e = rw (e)

dispatch_benchmark-Found_example :
    (dispatch_benchmark benchmarking true 4
      ≡ or_return
          (add_benchmarks benchmarking true (chosen (selects true) benchmarks) [] 4)
          (λ batches s'. (done (found benchmarking batches), s')))
    × (any (selects true) benchmarks ≡ false
        → dispatch_benchmark benchmarking true 4
          ≡ (done (err "Benchmark not found for this pallet."), 4))
    × ((batches : List String) (s' : ℕ)
        → dispatch_benchmark benchmarking true 4 ≡ (done (ok batches), s')
        → (batches ≢ []) × (any (selects true) benchmarks ≡ true))
dispatch_benchmark-Found_example =
    dispatch_benchmark-Found benchmarking selects benchmarking-SkipsOthers true 4

-- ===== src/Para/Command/BuiltIn.antt =====
-- A node that is run on one of the built-in chain specifications.
use sub0_bangkok_challenges.Common.{
  ◌≡◌, ◌∙◌, refl, sym, ap, subst, ℕ, String, ◌<>◌, ◌^◌, Bool, true, false, none, some, List, [],
  map, Result, ok, err, Outcome, done, failed, All, contains, ◌||◌, if◌then◌else◌, str_eq,
  Bool-cases, inl, inr,
}
use sub0_bangkok_challenges.Node.Json.{Json}
use sub0_bangkok_challenges.Node.Spec.{ChainSpec, Extensions, try_get}
use sub0_bangkok_challenges.Node.Crypto.{Crypto, Build}
use sub0_bangkok_challenges.Node.Task.{Configuration}
use sub0_bangkok_challenges.Node.Cli.{CliError, input}
use sub0_bangkok_challenges.Para.ChainSpec.{Crates, collator_seeds, endowed_seeds}
use sub0_bangkok_challenges.Para.ChainSpec.Genesis.{HasSmallDeposit, IsCollating, collator_json}
use sub0_bangkok_challenges.Para.ChainSpec.Configs.{
  DerivesAccount, DerivesCollator, IsParachain, development_config-BuildsParachain,
  development_config-done, local_testnet_config-done, local_testnet_config-BuildsParachain,
}
use sub0_bangkok_challenges.Para.Service.{Types, Sdk}
use sub0_bangkok_challenges.Para.Cli.{Cli}
use sub0_bangkok_challenges.Para.Main.{main}
use sub0_bangkok_challenges.Common.Returns.{done_injective}
use sub0_bangkok_challenges.Para.Command.Specs.{built_in, load_spec-other}
use sub0_bangkok_challenges.Common.Panics.{NeverPanics, NeverPanics-lift}
use sub0_bangkok_challenges.Para.Command.Outcomes.{started, ends, run-Ends}
use sub0_bangkok_challenges.Para.Command.{CliTypes, Commands, load_spec, create_relay_chain}

chosen :
    {A : Type 0} (P : A → Type 0) (a b c d : Bool) (x y w : A)
    → (a || (b || (c || (d || false)))) ≡ true
    → P x
    → P y
    → P (if a then x else if b then y else if c || d then y else w)
chosen P true b c d x y w e px py = px
chosen P false true c d x y w e px py = py
chosen P false false true d x y w e px py = py
chosen P false false false true x y w e px py = py
chosen P false false false false x y w e px py = cc

module _ (C : Crypto) (R : Crates) where
  -- It builds a specification of the parachain.
  abbrev GivesParachain : Build ChainSpec → Type 0
  GivesParachain b =
      (id : String) × (spec : ChainSpec) × (b ≡ (done spec, [])) × IsParachain C R id spec

  built_in-GivesParachain :
      (from_json_file : String → Result String ChainSpec) (code id : String)
      → HasSmallDeposit R
      → All (DerivesAccount C R) endowed_seeds
      → All (DerivesCollator C R) collator_seeds
      → contains built_in id ≡ true
      → GivesParachain (load_spec C R (some code) from_json_file id)
  unfolding load_spec
  built_in-GivesParachain from_json_file code id small hd hc e =
      let d = development_config-BuildsParachain C R small hd hc code in
      let l = local_testnet_config-BuildsParachain C R small hd hc code in
      chosen GivesParachain (str_eq id "dev") (str_eq id "template-rococo") (str_eq id "")
        (str_eq id "local") _ _ _ e ("dev", d.spec, d.spec_eq, d.is_parachain)
        ("local_testnet", l.spec, l.spec_eq, l.is_parachain)

  built_in-done :
      (from_json_file : String → Result String ChainSpec) (code id : String)
      → All (DerivesAccount C R) endowed_seeds
      → All (DerivesCollator C R) collator_seeds
      → contains built_in id ≡ true
      → (spec : ChainSpec) × (load_spec C R (some code) from_json_file id ≡ (done spec, []))
  unfolding load_spec
  built_in-done from_json_file code id hd hc e =
      chosen (λ (b : Build ChainSpec). (spec : ChainSpec) × (b ≡ (done spec, []))) (str_eq id "dev")
        (str_eq id "template-rococo") (str_eq id "") (str_eq id "local") _ _ _ e
        (development_config-done C R hd hc code) (local_testnet_config-done C R hd hc code)

  -- With the WASM binary and the keys at hand, loading a specification by any id does not panic.
  pub load_spec-NeverPanics :
      (from_json_file : String → Result String ChainSpec) (code : String)
      → All (DerivesAccount C R) endowed_seeds
      → All (DerivesCollator C R) collator_seeds
      → (id : String) → NeverPanics (load_spec C R (some code) from_json_file id)
  load_spec-NeverPanics from_json_file code hd hc id = elim (Bool-cases (contains built_in id)) [
    | inl known ↦
        let (spec, e) = built_in-done from_json_file code id hd hc known in
        subst NeverPanics (sym e) (record { calm = λ s x. cc })
    | inr other ↦
        subst NeverPanics (sym (load_spec-other C R from_json_file (some code) id other))
          (NeverPanics-lift (from_json_file id))
  ]

module _ {T : Types} {L : CliTypes} (K : Commands T L) (S : Sdk T) (benchmarks : Bool)
    (cli : Cli L.Cmd L.RunCmd) (config : Configuration) where
  -- How a run ends for this parachain: the relay chain's configuration is refused, or the node ends
  -- on it.
  abbrev pub EndsFor : ℕ → Result CliError Configuration → Outcome CliError (Unit {0}) → Type 0
  EndsFor para_id (err e) o = o ≡ failed (input ("Relay chain argument error: " <> K.display e))
  EndsFor para_id (ok polkadot_config) o =
      o ≡ started K S benchmarks cli config para_id polkadot_config

  ends-EndsFor :
      (parachain : Extensions) (relay_chain : Result CliError Configuration)
      → EndsFor parachain.para_id relay_chain
          (ends K S benchmarks cli config (some parachain) relay_chain)
  unfolding ends
  ends-EndsFor parachain (err e) = refl
  ends-EndsFor parachain (ok polkadot_config) = refl

  -- The node is run for the parachain whose id and collators are in the genesis.
  pub record EndsForGenesis (R : Crates) (o : Outcome CliError (Unit {0})) : Type 0 where
    pub para_id : ℕ
    pub collators : List (Json × Json)
    pub collating : IsCollating R collators (2 ^ 60) para_id config.chain_spec.genesis_patch
    pub ending : EndsFor para_id (create_relay_chain K S benchmarks cli.relay_chain_args config) o

  -- The seeds derive keys, the template's deposit is at most 10^12, and the runner made the configuration, without a subcommand, of the
  -- built-in specification with this id.
  pub record IsBuiltIn (C : Crypto) (R : Crates) (from_json_file : String → Result String ChainSpec)
      (code id : String) : Type 0 where
    pub no_subcommand : cli.subcommand ≡ none
    pub runner_ok : K.create_runner (K.normalize cli.run) ≡ done config
    pub deposit_small : HasSmallDeposit R
    pub accounts : All (DerivesAccount C R) endowed_seeds
    pub collator_keys : All (DerivesCollator C R) collator_seeds
    pub id_known : contains built_in id ≡ true
    pub loaded : load_spec C R (some code) from_json_file id ≡ (done config.chain_spec, [])

  -- A parachain node that is run, without a subcommand, on a built-in specification, the seeds of
  -- which derive keys, with a template's deposit of at most 10^12, finds the parachain whose id and
  -- collators are in the genesis of the runtime: it ends as its start for that parachain does, or
  -- because the relay chain's configuration is refused, and never for want of a parachain id.
  pub main-EndsForGenesis :
      (C : Crypto) (R : Crates) (from_json_file : String → Result String ChainSpec)
      (code id : String)
      → IsBuiltIn C R from_json_file code id
      → EndsForGenesis R (main K S benchmarks cli).0
  unfolding try_get
  main-EndsForGenesis C R from_json_file code id h =
      let (_, spec, e, parachain) =
        built_in-GivesParachain C R from_json_file code id h.deposit_small h.accounts
          h.collator_keys h.id_known in
      let same : spec ≡ config.chain_spec = done_injective _ _ (ap (λ m. m.0) (sym e ∙ h.loaded)) in
      let found : config.chain_spec.extensions ≡ some parachain.parachain =
        ap (λ s. s.extensions) (sym same) ∙ parachain.extensions_eq in
      record {
        para_id = parachain.parachain.para_id;
        collators = map (collator_json C R) parachain.collators;
        collating =
            subst
              (λ (s : ChainSpec).
                IsCollating R (map (collator_json C R) parachain.collators) (2 ^ 60)
                  parachain.parachain.para_id s.genesis_patch)
              same parachain.collating;
        ending =
            subst (EndsFor parachain.parachain.para_id _)
              (sym (
                run-Ends K S benchmarks cli config h.no_subcommand h.runner_ok
                ∙ ap
                    (λ x.
                      ends K S benchmarks cli config x
                        (create_relay_chain K S benchmarks cli.relay_chain_args config))
                    found))
              (ends-EndsFor parachain.parachain _);
      }

-- ===== src/Para/Cli/About.antt =====
-- How the parachain's node and its relay chain describe themselves: `SubstrateCli` of `Cli` and of
-- `RelayChainCli` in challenge-3/parachain-node/src/command.rs. The version and the authors come
-- from the build, the name of the executable from the SDK.
use sub0_bangkok_challenges.Common.{String, ◌<>◌}
use sub0_bangkok_challenges.Node.Cli.{About}

-- `Cli`
unfoldable pub about : (impl_version authors executable_name : String) → About
about impl_version authors executable_name = record {
  impl_name = "Parachain Collator Template";
  impl_version = impl_version;
  description =
      "Parachain Collator Template\n\nThe command-line arguments provided first will be passed to the parachain node, while the arguments provided after -- will be passed to the relay chain node.\n\n"
      <> executable_name <> " <parachain-args> -- <relay-chain-args>";
  author = authors;
  support_url = "https://github.com/paritytech/polkadot-sdk/issues/new";
  copyright_start_year = 2020;
}

-- `RelayChainCli`
unfoldable pub relay_chain_about : (impl_version authors executable_name : String) → About
relay_chain_about impl_version authors executable_name = record {
  impl_name = "Parachain Collator Template";
  impl_version = impl_version;
  description =
      "Parachain Collator Template\n\nThe command-line arguments provided first will be passed to the parachain node, while the arguments provided after -- will be passed to the relay chain node.\n\n"
      <> executable_name <> " <parachain-args> -- <relay-chain-args>";
  author = authors;
  support_url = "https://github.com/paritytech/polkadot-sdk/issues/new";
  copyright_start_year = 2020;
}

-- ===== src/Node/Build.antt =====
-- build.rs of challenge-3/solo-node and of challenge-3/parachain-node, which are alike.
use sub0_bangkok_challenges.Common.{Act, ◌>>◌, emit}

-- Calls of `substrate_build_script_utils`.
pub data Util : Type 0 where
  generate_cargo_keys rerun_if_git_head_changed : Util

abbrev pub main : Act ⊥ Util (Unit {0})
main = do emit generate_cargo_keys; emit rerun_if_git_head_changed

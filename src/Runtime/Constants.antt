-- ===== src/Runtime/Constants.antt =====
-- Time, currency and version constants: challenge-3/runtime/src/lib.rs, and the parameters of
-- challenge-3/runtime/src/configs/mod.rs that are made of them.
use sub0_bangkok_challenges.Common.{ℕ, String, List, [], ◌*◌, ◌/◌}

abbrev pub millisecs_per_block : ℕ
millisecs_per_block = 6000

abbrev pub slot_duration : ℕ
slot_duration = millisecs_per_block

-- Time is measured by number of blocks.
abbrev pub minutes : ℕ
minutes = 60_000 / millisecs_per_block

abbrev pub hours : ℕ
hours = minutes * 60

abbrev pub days : ℕ
days = hours * 24

-- The base number of indivisible units for balances.
abbrev pub unit : ℕ
unit = 1_000_000_000_000

abbrev pub centiunit : ℕ
centiunit = 10_000_000_000

abbrev pub milliunit : ℕ
milliunit = 1_000_000_000

abbrev pub microunit : ℕ
microunit = 1_000_000

abbrev pub existential_deposit : ℕ
existential_deposit = milliunit

-- `NORMAL_DISPATCH_RATIO`, in percent.
abbrev pub normal_dispatch_ratio : ℕ
normal_dispatch_ratio = 75

abbrev pub ss58_prefix : ℕ
ss58_prefix = 42

-- `TransactionByteFee`
abbrev pub transaction_byte_fee : ℕ
transaction_byte_fee = 10 * microunit

-- The period of a session, in blocks, and its offset.
abbrev pub period : ℕ
period = 6 * hours

abbrev pub offset : ℕ
offset = 0

abbrev pub session_length : ℕ
session_length = 6 * hours

-- Its list of APIs, which a macro generates, is left out.
pub record RuntimeVersion : Type 0 where
  pub spec_name : String
  pub impl_name : String
  pub authoring_version : ℕ
  pub spec_version : ℕ
  pub impl_version : ℕ
  pub transaction_version : ℕ
  pub state_version : ℕ

abbrev pub version : RuntimeVersion
version = record {
  spec_name = "parachain-from-scratch";
  impl_name = "parachain-from-scratch";
  authoring_version = 1;
  spec_version = 1;
  impl_version = 0;
  transaction_version = 1;
  state_version = 1;
}

-- `can_author_with` has the versions of transactions that blocks can be authored with, besides the
-- runtime's.
pub record NativeVersion : Type 0 where
  pub runtime_version : RuntimeVersion
  pub can_author_with : List ℕ

abbrev pub native_version : NativeVersion
native_version = record { runtime_version = version; can_author_with = [] }

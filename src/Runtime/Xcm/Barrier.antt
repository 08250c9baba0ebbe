-- ===== src/Runtime/Xcm/Barrier.antt =====
-- Which messages the barrier lets through.
use sub0_bangkok_challenges.Common.{
  ℕ, zero, suc, Bool, true, List, [], ◌∷◌, Option, some, Result, ok, ◌≡◌, refl, ◌⊎◌, inl, inr, ◌↔◌,
}
use sub0_bangkok_challenges.Runtime.Xcm.{
  BodyId, executive, Junction, parachain, plurality, Location, privileged, contains, everything,
  universal_location, Rules, barrier,
}

-- The relay chain, and the executive body of it.
pub data IsPrivileged : ℕ → List Junction → Type 0 where
  relay_chain : {parents : ℕ} → parents ≡ 1 → IsPrivileged parents []
  executive_body :
      {parents : ℕ} (part : ℕ) → parents ≡ 1 → IsPrivileged parents (plurality executive part ∷ [])

privileged-IsPrivileged :
    (parents : ℕ) (js : List Junction) → privileged parents js ≡ true → IsPrivileged parents js
unfolding privileged
privileged-IsPrivileged (suc zero) [] e = relay_chain refl
privileged-IsPrivileged (suc zero) (plurality executive part ∷ []) e = executive_body part refl
privileged-IsPrivileged (suc zero) (plurality executive part ∷ j ∷ js) e = cc
privileged-IsPrivileged (suc zero) (plurality (BodyId.other n) part ∷ js) e = cc
privileged-IsPrivileged (suc zero) (parachain n ∷ js) e = cc
privileged-IsPrivileged (suc zero) (Junction.other n ∷ js) e = cc
privileged-IsPrivileged zero js e = cc
privileged-IsPrivileged (suc (suc parents)) js e = cc

IsPrivileged-privileged :
    {parents : ℕ} {js : List Junction} → IsPrivileged parents js → privileged parents js ≡ true
unfolding privileged
IsPrivileged-privileged (relay_chain e) = rw e
IsPrivileged-privileged (executive_body part e) = rw e

contains_iff :
    (location : Location)
    → (contains location ≡ true) ↔ IsPrivileged location.parents location.interior
unfolding contains
contains_iff location = (privileged-IsPrivileged _ _, IsPrivileged-privileged)

-- What the rules of the SDK's documentation say of an origin and a message.
pub record Meaning (R : Rules) : Type 1 where
  pub Message : Type 0
  pub Error : Type 0
  pub should_execute : R.Rule → Location → Message → Result Error (Unit {0})
  -- the message without a trailing topic, and the origin with the message that follow from its
  -- leading instructions, up to a limit of these
  pub without_topic : Message → Message
  pub computed : List Junction → ℕ → Location → Message → Option (Location × Message)
  pub TransfersToRelay : Message → Type 0
  pub HasCredit : Message → Type 0
  pub PaysTopLevel : Message → Type 0
  pub IsUnpaid : Message → Type 0

abbrev pub Passes : {R : Rules} → (M : Meaning R) → R.Rule → Location → M.Message → Type 0
Passes M rule origin message = M.should_execute rule origin message ≡ ok tt

-- What follows from a message that a rule lets through.
pub record IsSound (R : Rules) (M : Meaning R) : Type 0 where
  pub topic :
      (rule : R.Rule) (origin : Location) (message : M.Message)
      → Passes M (R.trailing_set_topic_as_id rule) origin message
      → Passes M rule origin (M.without_topic message)
  pub deny_then_try :
      (deny allow : R.Rule) (origin : Location) (message : M.Message)
      → Passes M (R.deny_then_try deny allow) origin message
      → Passes M deny origin message × Passes M allow origin message
  pub either :
      (a b : R.Rule) (origin : Location) (message : M.Message)
      → Passes M (R.tuple (a ∷ b ∷ [])) origin message
      → Passes M a origin message ⊎ Passes M b origin message
  pub no_transfer :
      (origin : Location) (message : M.Message)
      → Passes M R.deny_reserve_transfer_to_relay_chain origin message
      → ¬ (M.TransfersToRelay message)
  pub credit :
      (origin : Location) (message : M.Message)
      → Passes M R.take_weight_credit origin message
      → M.HasCredit message
  pub computed_origin :
      (rule : R.Rule) (universal : List Junction) (limit : ℕ) (origin : Location)
      (message : M.Message)
      → Passes M (R.with_computed_origin rule universal limit) origin message
      → (origin' : Location) × (message' : M.Message) × (M.computed universal limit origin message
          ≡ some (origin', message'))
        × Passes M rule origin' message'
  pub paid :
      (allowed : Location → Bool) (origin : Location) (message : M.Message)
      → Passes M (R.allow_top_level_paid_execution_from allowed) origin message
      → (allowed origin ≡ true) × M.PaysTopLevel message
  pub unpaid :
      (allowed : Location → Bool) (origin : Location) (message : M.Message)
      → Passes M (R.allow_explicit_unpaid_execution_from allowed) origin message
      → (allowed origin ≡ true) × M.IsUnpaid message

module _ {R : Rules} (M : Meaning R) (parachain_id : ℕ) where
  -- The message is paid for, or its origin, as computed from the message, is privileged.
  pub record IsPaidOrPrivileged (origin : Location) (message : M.Message) : Type 0 where
    pub origin' : Location
    pub message' : M.Message
    pub is_computed :
        M.computed (universal_location parachain_id) 8 origin message ≡ some (origin', message')
    pub either :
        M.PaysTopLevel message'
        ⊎ (IsPrivileged origin'.parents origin'.interior × M.IsUnpaid message')

  module _ (sound : IsSound R M) where
    paid_or_unpaid :
        (origin : Location) (message : M.Message)
        → Passes M
            (R.tuple (
              R.allow_top_level_paid_execution_from everything
              ∷ R.allow_explicit_unpaid_execution_from contains
              ∷ []))
            origin
            message
        → M.PaysTopLevel message
          ⊎ (IsPrivileged origin.parents origin.interior × M.IsUnpaid message)
    paid_or_unpaid origin message e = elim (sound.either _ _ origin message e) [
      | inl p ↦ inl (sound.paid everything origin message p).1
      | inr p ↦
          let (allowed, unpaid) = sound.unpaid contains origin message p in
          inr ((contains_iff origin).0 allowed, unpaid)
    ]

    -- If each rule of the barrier is sound for what it is documented to pass, a message that the
    -- barrier lets through transfers no reserve to the relay chain, and it is
    -- covered by credit, pays for its execution, or comes from the relay chain or its executive
    -- body; these are exactly the locations that `ParentOrParentsExecutivePlurality` contains.
    pub barrier-PaidOrPrivileged :
        (origin : Location) (message : M.Message)
        → Passes M (barrier R parachain_id) origin message
        → (¬ (M.TransfersToRelay (M.without_topic message)))
          × (M.HasCredit (M.without_topic message)
              ⊎ IsPaidOrPrivileged origin (M.without_topic message))
          × ((location : Location)
              → (contains location ≡ true) ↔ IsPrivileged location.parents location.interior)
    unfolding barrier
    barrier-PaidOrPrivileged origin message e =
        let bare = M.without_topic message in
        let (denied, allowed) =
          sound.deny_then_try _ _ origin bare (sound.topic _ origin message e) in
        (
          sound.no_transfer origin bare denied,
          elim (sound.either _ _ origin bare allowed) [
            | inl p ↦ inl (sound.credit origin bare p)
            | inr p ↦
                let (origin', message', is_computed, passes) =
                  sound.computed_origin _ _ _ origin bare p in
                inr (record {
                  origin' = origin';
                  message' = message';
                  is_computed = is_computed;
                  either = paid_or_unpaid origin' message' passes;
                })
          ],
          contains_iff,
        )

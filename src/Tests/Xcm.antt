-- ===== src/Tests/Xcm.antt =====
-- The barrier, with rules that are functions on messages.
use sub0_bangkok_challenges.Common.{
  Bool, true, false, not, List, [], ◌∷◌, some, Result, ok, err, ◌≡◌, refl, ◌⊎◌, inl, inr, ◌↔◌,
  if◌then◌else◌,
}
use sub0_bangkok_challenges.Runtime.Xcm.{
  Location, plurality, executive, contains, privileged, Rules, barrier,
}
use sub0_bangkok_challenges.Runtime.Xcm.Barrier.{
  IsPrivileged, Meaning, IsSound, Passes, IsPaidOrPrivileged, barrier-PaidOrPrivileged,
}

-- A message by what the rules look at.
record Message : Type 0 where
  transfers_to_relay : Bool
  has_credit : Bool
  pays : Bool
  unpaid : Bool

abbrev Rule : Type 0
Rule = Location → Message → Bool

abbrev any_of : List Rule → Rule
any_of [] origin message = false
any_of (rule ∷ rules) origin message =
    if rule origin message then true else any_of rules origin message

abbrev rules : Rules
rules = record {
  Rule = Rule;
  trailing_set_topic_as_id = λ rule. rule;
  deny_then_try =
      λ deny allow origin message. if deny origin message then allow origin message else false;
  tuple = any_of;
  deny_reserve_transfer_to_relay_chain = λ origin message. not message.transfers_to_relay;
  take_weight_credit = λ origin message. message.has_credit;
  with_computed_origin = λ rule universal limit. rule;
  allow_top_level_paid_execution_from =
      λ allowed origin message. if allowed origin then message.pays else false;
  allow_explicit_unpaid_execution_from =
      λ allowed origin message. if allowed origin then message.unpaid else false;
}

abbrev verdict : Bool → Result (Unit {0}) (Unit {0})
verdict b = if b then ok tt else err tt

abbrev meaning : Meaning rules
meaning = record {
  Message = Message;
  Error = Unit;
  should_execute = λ rule origin message. verdict (rule origin message);
  without_topic = λ message. message;
  computed = λ universal limit origin message. some (origin, message);
  TransfersToRelay = λ message. message.transfers_to_relay ≡ true;
  HasCredit = λ message. message.has_credit ≡ true;
  PaysTopLevel = λ message. message.pays ≡ true;
  IsUnpaid = λ message. message.unpaid ≡ true;
}

passes_true : (b : Bool) → verdict b ≡ ok tt → b ≡ true
passes_true true e = refl
passes_true false e = cc

both_pass : (a b : Bool) → (if a then b else false) ≡ true → (a ≡ true) × (b ≡ true)
both_pass true b e = (refl, e)
both_pass false b e = cc

one_passes :
    (a b : Bool) → (if a then true else if b then true else false) ≡ true → (a ≡ true) ⊎ (b ≡ true)
one_passes true b e = inl refl
one_passes false true e = inr refl
one_passes false false e = cc

negation : (b : Bool) → not b ≡ true → ¬ (b ≡ true)
negation true e = λ h. cc
negation false e = λ h. cc

passes_if : (b : Bool) → b ≡ true → verdict b ≡ ok tt
passes_if b e = rw e

meaning-IsSound : IsSound rules meaning
meaning-IsSound = record {
  topic = λ rule origin message e. e;
  deny_then_try = λ deny allow origin message e.
      let (a, b) = both_pass (deny origin message) (allow origin message) (passes_true _ e) in
      (passes_if _ a, passes_if _ b);
  either = λ a b origin message e.
      elim (one_passes (a origin message) (b origin message) (passes_true _ e)) [
        | inl h ↦ inl (passes_if _ h)
        | inr h ↦ inr (passes_if _ h)
      ];
  no_transfer = λ origin message e. negation message.transfers_to_relay (passes_true _ e);
  credit = λ origin message e. passes_true _ e;
  computed_origin = λ rule universal limit origin message e. (origin, message, refl, e);
  paid = λ allowed origin message e. both_pass (allowed origin) message.pays (passes_true _ e);
  unpaid = λ allowed origin message e. both_pass (allowed origin) message.unpaid (passes_true _ e);
}

-- The executive body of the relay chain, which does not pay.
abbrev origin : Location
origin = record { parents = 1; interior = plurality executive 4 ∷ [] }

abbrev message : Message
message = record { transfers_to_relay = false; has_credit = false; pays = false; unpaid = true }

barrier-Passes : Passes meaning (barrier rules 2000) origin message
unfolding barrier contains privileged
barrier-Passes = refl

barrier-PaidOrPrivileged_example :
    (¬ (false ≡ true))
    × ((false ≡ true) ⊎ IsPaidOrPrivileged meaning 2000 origin message)
    × ((location : Location)
        → (contains location ≡ true) ↔ IsPrivileged location.parents location.interior)
barrier-PaidOrPrivileged_example =
    barrier-PaidOrPrivileged meaning 2000 meaning-IsSound origin message barrier-Passes

-- ===== src/LightClient/Rounds/Account.antt =====
-- What a number of rounds has printed.
use sub0_bangkok_challenges.Common.{
  ℕ, zero, suc, ◌≡◌, refl, subst, ap, inl, inr, String, Option, none, some, [], ◌∷◌, ok, err,
  Outcome, done, failed, panicked, arith, run,
}
use sub0_bangkok_challenges.LightClient.{Types, Block, Item, Run, line}
use sub0_bangkok_challenges.LightClient.Merge.{both_end, left, right}
use sub0_bangkok_challenges.LightClient.Rounds.{StreamSdk, round, rounds}
use sub0_bangkok_challenges.LightClient.Rounds.Streams.{
  Yielded, ended, of_left, of_right, IsSelect, nothing, one_more, Account, Ending,
}

module _ {T : Types} (S : StreamSdk T) (h : IsSelect S) where
  open S use {Subscription, Selected}

  -- One more block, printed.
  Ending-suc :
      (n k : ℕ) (l r : String × Subscription) (o : Outcome T.Error (Option Selected))
      → Ending S h n k l r o
      → Ending S h (suc n) (suc k) l r o
  Ending-suc n k l r (done none) e = e
  Ending-suc n k l r (done (some stream)) (e, el, er) = (ap suc e, el, er)
  Ending-suc n k l r (failed x) e = e
  Ending-suc n k l r (panicked s) e = e

  -- Nothing was printed in the last round.
  Account-start :
      (n : ℕ) (l r : String × Subscription) (o : Outcome T.Error (Option Selected))
      → Ending S h n 0 l r o
      → Account S h n l r (o, [])
  Account-start n l r o e = record {
    left_blocks = [];
    right_blocks = [];
    left_last = l.1;
    right_last = r.1;
    left_yields = nothing;
    right_yields = nothing;
    printed = both_end;
    within = omega arith;
    ending = e;
  }

  module _ (n : ℕ) (l r : String × Subscription) (block : Block T) (sub : Subscription) where
    Account-left :
        (m : Run T (Option Selected))
        → S.next_block l.1 ≡ some (ok block, sub)
        → Account S h n (l.0, sub) r m
        → Account S h (suc n) l r (m.0, line l.0 block ∷ m.1)
    Account-left m e a = record {
      left_blocks = block ∷ a.left_blocks;
      right_blocks = a.right_blocks;
      left_last = a.left_last;
      right_last = a.right_last;
      left_yields = one_more e a.left_yields;
      right_yields = a.right_yields;
      printed = left a.printed;
      within = omega (arith, a.within);
      ending =
          subst (λ k. Ending S h (suc n) k (l.0, a.left_last) (r.0, a.right_last) m.0) (omega arith)
            (Ending-suc n _ _ _ m.0 a.ending);
    }

    Account-right :
        (m : Run T (Option Selected))
        → S.next_block r.1 ≡ some (ok block, sub)
        → Account S h n l (r.0, sub) m
        → Account S h (suc n) l r (m.0, line r.0 block ∷ m.1)
    Account-right m e a = record {
      left_blocks = a.left_blocks;
      right_blocks = block ∷ a.right_blocks;
      left_last = a.left_last;
      right_last = a.right_last;
      left_yields = a.left_yields;
      right_yields = one_more e a.right_yields;
      printed = right a.printed;
      within = omega (arith, a.within);
      ending =
          subst (λ k. Ending S h (suc n) k (l.0, a.left_last) (r.0, a.right_last) m.0) (omega arith)
            (Ending-suc n _ _ _ m.0 a.ending);
    }

  round-Account :
      (n : ℕ) (l r : String × Subscription) (again : Selected → Run T (Option Selected))
      → ((stream : Selected) → Account S h n (h.left_of stream) (h.right_of stream) (again stream))
      → {next : Option ((String × Item T) × Selected)} → Yielded S l r h.left_of h.right_of next
      → Account S h (suc n) l r (round S again next)
  unfolding round run
  round-Account n l r again ih (ended el er) = Account-start (suc n) l r (done none) (el, er)
  round-Account n l r again ih (of_left {item = err x} sub e el er) =
      Account-start (suc n) l r (failed x) (inl (sub, e))
  round-Account n l r again ih (of_right {item = err x} sub e el er) =
      Account-start (suc n) l r (failed x) (inr (sub, e))
  round-Account n l r again ih (of_left {item = ok block} {stream = stream} sub e el er) =
      Account-left n l r block sub (again stream) e (
        subst (λ p. Account S h n p r (again stream)) el
          (subst (λ q. Account S h n (h.left_of stream) q (again stream)) er (ih stream)))
  round-Account n l r again ih (of_right {item = ok block} {stream = stream} sub e el er) =
      Account-right n l r block sub (again stream) e (
        subst (λ p. Account S h n p (r.0, sub) (again stream)) el
          (subst (λ q. Account S h n (h.left_of stream) q (again stream)) er (ih stream)))

  pub rounds-Account :
      (n : ℕ) (stream : Selected)
      → Account S h n (h.left_of stream) (h.right_of stream) (rounds S n stream)
  unfolding rounds run
  rounds-Account zero stream = Account-start zero _ _ (done (some stream)) (refl, refl, refl)
  rounds-Account (suc n) stream =
      round-Account n _ _ (rounds S n) (rounds-Account n) (h.yields stream)

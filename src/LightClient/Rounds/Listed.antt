-- ===== src/LightClient/Rounds/Listed.antt =====
-- The rounds over a stream that ends are the loop over the list of what it yields.
use sub0_bangkok_challenges.Common.{
  ℕ, zero, suc, ◌<◌, ◌≡◌, refl, String, none, some, List, [], ◌∷◌, length, ok, err, done, failed,
  panicked, Act, ◌>>=◌, ◌>>◌, pure, emit, arith, run,
}
use sub0_bangkok_challenges.LightClient.{Types, Item, line, print_blocks}
use sub0_bangkok_challenges.LightClient.Rounds.{StreamSdk, round, rounds}

emit-bind :
    {X E A B : Type 0} (e : E) (m : Act X E A) (f : A → Act X E B)
    → (emit e >> (m >>= f)) ≡ ((emit e >> m) >>= f)
unfolding run
emit-bind e (done a, l) f = refl
emit-bind e (failed x, l) f = refl
emit-bind e (panicked s, l) f = refl

module _ {T : Types} (S : StreamSdk T) where
  -- The stream yields these items and ends.
  pub data Lists : S.Selected → List (String × Item T) → Type 0 where
    at_end : {stream : S.Selected} → S.next stream ≡ none → Lists stream []
    first :
        {stream rest : S.Selected} {item : String × Item T} {items : List (String × Item T)}
        → S.next stream ≡ some (item, rest)
        → Lists rest items
        → Lists stream (item ∷ items)

  -- Over a stream that ends, with a limit above the number of its items, the rounds do what the
  -- loop over the list of these items does, and the limit is not reached.
  pub rounds-print_blocks :
      (n : ℕ) (stream : S.Selected) (items : List (String × Item T))
      → Lists stream items
      → length items < n
      → rounds S n stream ≡ (print_blocks items >>= λ _. pure none)
  unfolding rounds round print_blocks run
  rounds-print_blocks zero stream items l lt = absurd (omega arith)
  rounds-print_blocks (suc n) stream [] (at_end e) lt = rw (e) refl
  rounds-print_blocks (suc n) stream ((chain, err x) ∷ items) (first e l) lt = rw (e) refl
  rounds-print_blocks (suc n) stream ((chain, ok block) ∷ items) (first {rest = rest} e l) lt =
      rw (e, rounds-print_blocks n rest items l (omega arith))
        (emit-bind (line chain block) (print_blocks items) _)

-- ===== src/LightClient/Rounds/Termination.antt =====
-- The loop ends when both subscriptions do.
use sub0_bangkok_challenges.Common.{
  ℕ, zero, suc, ◌+◌, ◌≤◌, ◌<◌, ◌≡◌, refl, sym, subst, String, Option, none, some, ok, err, Outcome,
  done, failed, panicked, arith, run,
}
use sub0_bangkok_challenges.LightClient.{Types, Item, Run}
use sub0_bangkok_challenges.LightClient.Rounds.{StreamSdk, round, rounds}
use sub0_bangkok_challenges.LightClient.Rounds.Streams.{Yielded, ended, of_left, of_right, IsSelect}

module _ {T : Types} (S : StreamSdk T) where
  open S use {Subscription, Selected, next_block}

  -- The subscription ends after at most this many items.
  pub data EndsWithin : ℕ → Subscription → Type 0 where
    now : {k : ℕ} {sub : Subscription} → next_block sub ≡ none → EndsWithin k sub
    later :
        {k : ℕ} {sub rest : Subscription} {item : Item T}
        → next_block sub ≡ some (item, rest)
        → EndsWithin k rest
        → EndsWithin (suc k) sub

  -- The limit of rounds was not reached.
  abbrev pub Stops : Outcome T.Error (Option Selected) → Type 0
  Stops (done none) = Unit
  Stops (done (some stream)) = ⊥
  Stops (failed e) = Unit
  Stops (panicked s) = ⊥

  EndsWithin-rest :
      {k : ℕ} {sub rest : Subscription} {item : Item T}
      → EndsWithin k sub
      → next_block sub ≡ some (item, rest)
      → (j : ℕ) × (k ≡ suc j) × EndsWithin j rest
  EndsWithin-rest (now e) e' = cc
  EndsWithin-rest (later {k = k} e w) e' = (k, refl, subst (EndsWithin k) (cc) w)

  module _ (h : IsSelect S) where
    round-Stops :
        (n k j : ℕ) (l r : String × Subscription) (again : Selected → Run T (Option Selected))
        → ((k j : ℕ) (stream : Selected)
            → EndsWithin k (h.left_of stream).1
            → EndsWithin j (h.right_of stream).1
            → k + j < n
            → Stops (again stream).0)
        → EndsWithin k l.1
        → EndsWithin j r.1
        → k + j < suc n
        → {next : Option ((String × Item T) × Selected)} → Yielded S l r h.left_of h.right_of next
        → Stops (round S again next).0
    unfolding round run
    round-Stops n k j l r again ih el er lt (ended _ _) = tt
    round-Stops n k j l r again ih el er lt (of_left {item = err x} sub e _ _) = tt
    round-Stops n k j l r again ih el er lt (of_right {item = err x} sub e _ _) = tt
    round-Stops n k j l r again ih el er lt (of_left {item = ok b} {stream = stream} sub e sl sr) =
        let (k', ek, w) = EndsWithin-rest el e in
        ih k' j stream (subst (λ p. EndsWithin k' p.1) (sym sl) w)
          (subst (λ p. EndsWithin j p.1) (sym sr) er) (omega arith)
    round-Stops n k j l r again ih el er lt (of_right {item = ok b} {stream = stream} sub e sl sr) =
        let (j', ej, w) = EndsWithin-rest er e in
        ih k j' stream (subst (λ p. EndsWithin k p.1) (sym sl) el)
          (subst (λ p. EndsWithin j' p.1) (sym sr) w) (omega arith)

    pub rounds-Stops :
        (n k j : ℕ) (stream : Selected)
        → EndsWithin k (h.left_of stream).1
        → EndsWithin j (h.right_of stream).1
        → k + j < n
        → Stops (rounds S n stream).0
    unfolding rounds
    rounds-Stops zero k j stream el er lt = absurd (omega arith)
    rounds-Stops (suc n) k j stream el er lt =
        round-Stops n k j _ _ (rounds S n) (rounds-Stops n) el er lt (h.yields stream)

  round-more :
      (again more : Selected → Run T (Option Selected))
      → ((stream : Selected) → Stops (again stream).0 → more stream ≡ again stream)
      → (next : Option ((String × Item T) × Selected)) → Stops (round S again next).0
      → round S more next ≡ round S again next
  unfolding round run
  round-more again more ih none s = refl
  round-more again more ih (some ((chain, err e), stream)) s = refl
  round-more again more ih (some ((chain, ok block), stream)) s = rw (ih stream s)

  -- More rounds change nothing.
  pub rounds-more :
      (n m : ℕ) (stream : Selected)
      → n ≤ m
      → Stops (rounds S n stream).0
      → rounds S m stream ≡ rounds S n stream
  unfolding rounds run
  rounds-more zero m stream le s = absurd s
  rounds-more (suc n) zero stream le s = absurd (omega arith)
  rounds-more (suc n) (suc m) stream le s =
      round-more (rounds S n) (rounds S m) (λ stream' s'. rounds-more n m stream' (omega arith) s')
        (S.next stream) s

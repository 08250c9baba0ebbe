-- ===== src/LightClient/Merge.antt =====
-- What `futures::stream::select` promises: every item of both streams once, those of a stream in
-- their order.
use sub0_bangkok_challenges.Common.{
  List, [], ◌∷◌, ◌≡◌, refl, Option, none, arith, Option-cases, inl, inr,
}
use sub0_bangkok_challenges.Common.Emits.{project}

module _ {A : Type 0} where
  pub data Merges : List A → List A → List A → Type 0 where
    both_end : Merges [] [] []
    left : {x : A} {xs ys zs : List A} → Merges xs ys zs → Merges (x ∷ xs) ys (x ∷ zs)
    right : {y : A} {xs ys zs : List A} → Merges xs ys zs → Merges xs (y ∷ ys) (y ∷ zs)

  -- The streams are merged alike.
  pub Merges-swap : {xs ys zs : List A} → Merges xs ys zs → Merges ys xs zs
  Merges-swap both_end = both_end
  Merges-swap (left m) = right (Merges-swap m)
  Merges-swap (right m) = left (Merges-swap m)

module _ {A B : Type 0} (p : A → Option B) where
  project-dropped :
      (y : A) (ys : List A) → project p (y ∷ ys) ≡ [] → (p y ≡ none) × (project p ys ≡ [])
  project-dropped y ys e = elim (Option-cases (p y)) [
    | inl dropped ↦ (dropped, rw (project, dropped) at e)
    | inr (b, kept) ↦ cc
  ]

  -- If a projection drops the second stream, it sees of the merge what it sees of the first.
  pub project-Merges_left :
      {xs ys zs : List A} → Merges xs ys zs → project p ys ≡ [] → project p zs ≡ project p xs
  project-Merges_left both_end e = refl
  project-Merges_left (left {x = x} m) e = ground (arith, project-Merges_left m e)
  project-Merges_left (right {y = y} {ys = ys} m) e =
      let (dropped, rest) = project-dropped y ys e in
      rw (project, dropped) (project-Merges_left m rest)

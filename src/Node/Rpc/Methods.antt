-- ===== src/Node/Rpc/Methods.antt =====
-- Which methods the server has.
use sub0_bangkok_challenges.Common.{
  String, Bool, true, List, [], ◌∷◌, ◌++◌, ok, contains, ◌≡◌, ◌∙◌, refl, ap, not, ◌&&◌,
}
use sub0_bangkok_challenges.Node.Rpc.{Types, FullDeps, Sdk, create_full}
use sub0_bangkok_challenges.Para.Rpc as Para

-- No name of the second list is in the first.
abbrev pub disjoint : List String → List String → Bool
disjoint names [] = true
disjoint names (x ∷ xs) = not (contains names x) && disjoint names xs

disjoint-nil : (xs : List String) → disjoint [] xs ≡ true
disjoint-nil [] = refl
disjoint-nil (x ∷ xs) = disjoint-nil xs

module _ {T : Types} (S : Sdk T) where
  -- `merge` adds methods to a module, if it has none of their names.
  pub record IsMerge (names : T.Module → List String) (names_of : T.Methods → List String)
      : Type 0 where
    pub empty_names : names S.empty ≡ []
    pub merge_names :
        (m : T.Module) (methods : T.Methods)
        → disjoint (names m) (names_of methods) ≡ true
        → (merged : T.Module) × (S.merge m methods ≡ ok merged)
          × (names merged ≡ names m ++ names_of methods)

  -- If the two extensions have no method's name in common, `create_full` of either node succeeds
  -- with one and the same server, which has the methods of the system extension and then those of
  -- transaction payment.
  pub create_full-Methods :
      (names : T.Module → List String) (names_of : T.Methods → List String) (deps : FullDeps T)
      → IsMerge names names_of
      → disjoint
          (names_of (S.system deps.client deps.pool deps.deny_unsafe))
          (names_of (S.transaction_payment deps.client))
        ≡ true
      → (m : T.Module) × (create_full S deps ≡ ok m)
        × (Para.create_full S deps ≡ ok m)
        × (names m
            ≡ names_of (S.system deps.client deps.pool deps.deny_unsafe)
              ++ names_of (S.transaction_payment deps.client))
  unfolding create_full Para.create_full
  create_full-Methods names names_of deps h d =
      let system = S.system deps.client deps.pool deps.deny_unsafe in
      let payment = S.transaction_payment deps.client in
      let (m, em, nm) =
        h.merge_names S.empty system
          (ap (λ l. disjoint l (names_of system)) h.empty_names ∙ disjoint-nil (names_of system)) in
      let all_system : names m ≡ names_of system =
        nm ∙ ap (λ l. l ++ names_of system) h.empty_names in
      let (m', em', nm') =
        h.merge_names m payment (ap (λ l. disjoint l (names_of payment)) all_system ∙ d) in
      (m', rw (em) em', rw (em) em', nm' ∙ ap (λ l. l ++ names_of payment) all_system)

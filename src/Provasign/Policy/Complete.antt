-- ===== src/Provasign/Policy/Complete.antt =====
-- EvaluateAll of policy.go: no enabled gate is left out.
use grove_suite.Prelude.{
  ◌≡◌, refl, ◌∙◌, ap, Bool, true, ◌||◌, inl, inr, List, [], ◌∷◌, some, arith, Text, text_eq,
  text_eq_iff, text_lt, Map, lookup, member, Bool-cases, Option-cases,
}
use grove_suite.Prelude.Sorts.{place, sort_stable}
use grove_suite.Provasign.Data.{ChangeSet, PolicyBlock, RelayConfig, is_allowed}
use grove_suite.Provasign.Policy.{
  Stages, Gate, Registry, enabled_names, evaluate_one, evaluate_names, evaluate_all, allowed,
}

member-place : (k n : Text) (ns : List Text) → member k (place text_lt n ns) ≡ member k (n ∷ ns)
unfolding member place
member-place k n [] = refl
member-place k n (m ∷ ns) = elim (Bool-cases (text_lt m n)) [
  | inl l ↦ rw l (ground (arith, member-place k n ns))
  | inr l ↦ rw l refl
]

pub member-sort_stable :
    (k : Text) (ns : List Text) → member k (sort_stable text_lt ns) ≡ member k ns
unfolding member sort_stable
member-sort_stable k [] = refl
member-sort_stable k (n ∷ ns) =
    member-place k n (sort_stable text_lt ns) ∙ ap (λ b. text_eq n k || b) (member-sort_stable k ns)

module _ {O : Type 0} where
  pub member-enabled_names :
      (include : Text → Bool) (m : Map (PolicyBlock O)) (n : Text) (block : PolicyBlock O)
      → lookup n m ≡ some block
      → block.enabled ≡ true
      → include n ≡ true
      → member n (enabled_names include m) ≡ true
  unfolding lookup enabled_names member
  member-enabled_names include [] n block l e i = cc
  member-enabled_names include ((k, b) ∷ m) n block l e i =
      ground (arith, text_eq_iff k n, text_eq_iff n n, member-enabled_names include m n block)

  module _ (reg : Registry O) (cfg : RelayConfig O) (stages : Stages) (cs : ChangeSet) where
    pub allowed-evaluate_names :
        (ns : List Text) (n : Text)
        → allowed (evaluate_names reg cfg stages cs ns) ≡ true
        → member n ns ≡ true
        → is_allowed (evaluate_one reg cfg stages cs n).verdict ≡ true
    unfolding evaluate_names member
    allowed-evaluate_names [] n a m = cc
    allowed-evaluate_names (k ∷ ns) n a m =
        ground (arith, text_eq_iff k n, allowed-evaluate_names ns n)

    -- A gate that allows is registered.
    pub evaluate_one-allowed :
        (n : Text) (block : PolicyBlock O)
        → lookup n cfg.policies ≡ some block
        → is_allowed (evaluate_one reg cfg stages cs n).verdict ≡ true
        → (g : Gate O) × (lookup n reg ≡ some g)
          × (is_allowed (g.evaluate stages cs block.options).verdict ≡ true)
    unfolding evaluate_one
    evaluate_one-allowed n block l a = elim (Option-cases (lookup n reg)) [
      | inl missing ↦ absurd (ground (arith, missing))
      | inr (g, there) ↦ (g, there, ground (arith, there))
    ]

    -- Where EvaluateAll's results are all allowed, every gate that the config enables was evaluated
    -- and allowed the changeset: none of them is missing from the registry.
    pub evaluate_all_complete :
        (n : Text) (block : PolicyBlock O)
        → lookup n cfg.policies ≡ some block
        → block.enabled ≡ true
        → allowed (evaluate_all reg cfg stages cs) ≡ true
        → (g : Gate O) × (lookup n reg ≡ some g)
          × (is_allowed (g.evaluate stages cs block.options).verdict ≡ true)
    unfolding evaluate_all
    evaluate_all_complete n block l e a = evaluate_one-allowed n block l (
        allowed-evaluate_names _ n a (
          member-sort_stable n (enabled_names (λ k. true) cfg.policies)
          ∙ member-enabled_names (λ k. true) cfg.policies n block l e refl))

-- ===== src/Domain/Plan/Order/Respects.antt =====
-- The waves of a plan, and the dependencies of its steps.
use mathlib.Core.List.{cons≢nil}
use multi_cloud_ai_orchestra.Base.{
  ℕ, zero, suc, ◌<◌, ◌≡◌, refl, sym, ap, subst, String, str_eq, eq_iff, Bool, true, false, not,
  ◌||◌, List, [], ◌∷◌, ◌++◌, arith, all, mem_text, mem_text-append, All-select, All-map, select,
  length, All, inl, inr, Bool-cases, ◌≢◌,
}
use multi_cloud_ai_orchestra.Domain.Plan.{ExecutionStep, ExecutionPlan}
use multi_cloud_ai_orchestra.Domain.Plan.Order.{
  ids, satisfied, remove_all, or_first, rounds, get_execution_order,
}
use multi_cloud_ai_orchestra.Domain.Plan.Order.Complete.{remove_all-select, select-All, wave}

-- Every dependency of the step is in `completed`.
abbrev pub IsReady : List String → ExecutionStep → Type 0
IsReady completed step =
    (dep : String) → mem_text dep step.dependencies ≡ true → mem_text dep completed ≡ true

-- All dependencies of each wave are steps of earlier waves, or are in `completed`.
abbrev pub IsOrdered : List String → List (List ExecutionStep) → Type 0
IsOrdered completed [] = Unit
IsOrdered completed (w ∷ ws) = All (IsReady completed) w × IsOrdered (completed ++ ids w) ws

all_met :
    (completed deps : List String)
    → all (λ dep. mem_text dep completed) deps ≡ true
    → (dep : String) → mem_text dep deps ≡ true
    → mem_text dep completed ≡ true
all_met completed [] h dep m = cc
all_met completed (d ∷ deps) h dep m = elim (Bool-cases (str_eq d dep)) [
  | inl same ↦ subst (λ x. mem_text x completed ≡ true) ((eq_iff d dep).0 same) (ground (arith, h))
  | inr other ↦ all_met completed deps (ground (arith, h)) dep (ground (arith, m))
]

satisfied-IsReady :
    (completed : List String) (step : ExecutionStep)
    → satisfied completed step ≡ true
    → IsReady completed step
unfolding satisfied
satisfied-IsReady completed step h = all_met completed step.dependencies h

-- `rank` falls along every dependency that is not completed, and such a dependency is a step of
-- `steps`.
abbrev pub Descends : (String → ℕ) → List String → List ExecutionStep → ExecutionStep → Type 0
Descends rank completed steps step =
    (dep : String)
    → mem_text dep step.dependencies ≡ true
    → mem_text dep completed ≡ false
    → (mem_text dep (ids steps) ≡ true) × (rank dep < rank step.step_id)

abbrev pub IsAcyclic : (String → ℕ) → List String → List ExecutionStep → Type 0
IsAcyclic rank completed steps = All (Descends rank completed steps) steps

-- A dependency that is not satisfied.
unmet :
    (completed deps : List String)
    → all (λ dep. mem_text dep completed) deps ≡ false
    → (dep : String) × (mem_text dep deps ≡ true) × (mem_text dep completed ≡ false)
unmet completed [] h = cc
unmet completed (d ∷ deps) h = elim (Bool-cases (mem_text d completed)) [
  | inl met ↦ let (dep, m, n) = unmet completed deps (rw met at h) in (dep, ground (arith, m), n)
  | inr free ↦ (d, ground (arith, eq_iff d d), free)
]

-- A named step, with what holds of every step.
pick :
    {P : ExecutionStep → Type 0} (dep : String) (steps : List ExecutionStep)
    → All P steps
    → mem_text dep (ids steps) ≡ true
    → (s : ExecutionStep) × (s.step_id ≡ dep) × P s
pick dep [] h m = cc
pick dep (s ∷ steps) h m = elim (Bool-cases (str_eq s.step_id dep)) [
  | inl same ↦ (s, (eq_iff s.step_id dep).0 same, h.0)
  | inr other ↦ pick dep steps h.1 (rw other at m)
]

mem_ids-select :
    (p : ExecutionStep → Bool) (dep : String) (steps : List ExecutionStep)
    → mem_text dep (ids steps)
      ≡ (mem_text dep (ids (select p steps)) || mem_text dep (ids (select (λ s. not (p s)) steps)))
mem_ids-select p dep [] = refl
mem_ids-select p dep (s ∷ steps) = ground (arith, mem_ids-select p dep steps)

none_ready :
    (p : ExecutionStep → Bool) (steps : List ExecutionStep)
    → select p steps ≡ []
    → All (λ s. p s ≡ false) steps
none_ready p [] h = tt
none_ready p (s ∷ steps) h = elim (Bool-cases (p s)) [
  | inl t ↦ absurd (cons≢nil (rw t at h))
  | inr f ↦ (f, none_ready p steps (rw f at h))
]

module _ (rank : String → ℕ) (completed : List String) (steps : List ExecutionStep) where
  record IsStuck (s : ExecutionStep) : Type 0 where
    descends : Descends rank completed steps s
    unready : satisfied completed s ≡ false

  All-IsStuck :
      (some_steps : List ExecutionStep)
      → All (Descends rank completed steps) some_steps
      → All (λ s. satisfied completed s ≡ false) some_steps
      → All IsStuck some_steps
  All-IsStuck [] h k = tt
  All-IsStuck (s ∷ some_steps) h k =
      (record { descends = h.0; unready = k.0 }, All-IsStuck some_steps h.1 k.1)

  -- Stuck steps would have dependencies of ever smaller rank.
  descent : (k : ℕ) (s : ExecutionStep) → All IsStuck steps → IsStuck s → rank s.step_id < k → ⊥
  unfolding satisfied
  descent zero s all_stuck stuck h = absurd (omega arith)
  descent (suc k) s all_stuck stuck h =
      let (dep, needed, free) = unmet completed s.dependencies stuck.unready in
      let (known, lower) = stuck.descends dep needed free in
      let (t, named, t_stuck) = pick dep steps all_stuck known in
      descent k t all_stuck t_stuck (omega (arith, ap rank named))

  some_ready :
      (s : ExecutionStep) (others : List ExecutionStep)
      → steps ≡ s ∷ others
      → IsAcyclic rank completed steps
      → select (satisfied completed) steps ≢ []
  some_ready s others e acyclic none =
      let all_stuck = All-IsStuck steps acyclic (none_ready (satisfied completed) steps none) in
      descent (suc (rank s.step_id)) s all_stuck (subst (All IsStuck) e all_stuck).0 (omega arith)

  -- What is left after a round depends on what is left and what is completed.
  Descends-round :
      (s : ExecutionStep)
      → Descends rank completed steps s
      → Descends rank
          (completed ++ ids (select (satisfied completed) steps))
          (select (λ t. not (satisfied completed t)) steps)
          s
  Descends-round s h dep needed free =
      let ready = ids (select (satisfied completed) steps) in
      ground (
        arith,
        h dep needed,
        mem_text-append dep completed ready,
        mem_ids-select (satisfied completed) dep steps,
      )

-- In a round that finds ready steps, the wave is these steps and the rest is what is left.
wave-ready :
    (p : ExecutionStep → Bool) (first : ExecutionStep) (others : List ExecutionStep)
    → select p (first ∷ others) ≢ []
    → wave p first others ≡ select p (first ∷ others)
unfolding or_first
wave-ready p first others h = go (select p (first ∷ others)) h
  where
    go : (w : List ExecutionStep) → w ≢ [] → or_first w first ≡ w
    go [] h = absurd (h refl)
    go (s ∷ w) h = refl

rounds-IsOrdered :
    (rank : String → ℕ) (fuel : ℕ) (completed : List String) (remaining : List ExecutionStep)
    → IsAcyclic rank completed remaining
    → IsOrdered completed (rounds fuel completed remaining)
unfolding rounds
rounds-IsOrdered rank zero completed remaining h = tt
rounds-IsOrdered rank (suc fuel) completed [] h = tt
rounds-IsOrdered rank (suc fuel) completed (first ∷ others) h =
    let steps = first ∷ others in
    let p = satisfied completed in
    let ready = wave-ready p first others (some_ready rank completed steps first others refl h) in
    let rest = select (λ t. not (p t)) steps in
    let acyclic =
      All-select (Descends rank (completed ++ ids (select p steps)) rest) (λ t. not (p t)) steps
        (All-map (Descends rank completed steps)
          (Descends rank (completed ++ ids (select p steps)) rest) steps
          (Descends-round rank completed steps) h) in
    let result : IsOrdered (completed ++ ids (select p steps))
        (rounds fuel (completed ++ ids (select p steps)) rest) =
      rounds-IsOrdered rank fuel (completed ++ ids (select p steps)) rest acyclic in
    (
      subst (All (IsReady completed)) (sym ready) (
          All-map (λ s. p s ≡ true) (IsReady completed) (select p steps)
            (satisfied-IsReady completed) (select-All p steps)),
      subst
          (λ w.
            IsOrdered (completed ++ ids w) (rounds fuel (completed ++ ids w) (remove_all w steps)))
          (sym ready)
          (subst
            (λ l.
              IsOrdered (completed ++ ids (select p steps))
                (rounds fuel (completed ++ ids (select p steps)) l))
            (sym (remove_all-select p steps)) result),
    )

-- If some rank of step ids falls along every dependency and every dependency is a step of the
-- plan, then each step stands in a wave behind the waves of all of its dependencies.
pub get_execution_order-IsOrdered :
    (rank : String → ℕ) (plan : ExecutionPlan)
    → IsAcyclic rank [] plan.steps
    → IsOrdered [] (get_execution_order plan)
unfolding get_execution_order
get_execution_order-IsOrdered rank plan h =
    rounds-IsOrdered rank (length plan.steps) [] plan.steps h

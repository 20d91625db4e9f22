-- ===== src/Domain/Plan/Order/Complete.antt =====
-- The waves of a plan, and its steps.
use mathlib.Core.List.Perm
use mathlib.Core.List.{Perm, perm_middle, flatten}
use mathlib.Core.Bool.{false≢true}
use mathlib.Core.Logic.{if_pos, if_neg}
use multi_cloud_ai_orchestra.Base.{
  ℕ, zero, suc, ◌+◌, ◌≤◌, ◌≡◌, ◌≢◌, refl, sym, ap, subst, ◌∙◌, String, Bool, true, false, not, List,
  [], ◌∷◌, ◌++◌, arith, select, length, All, inl, inr, Bool-cases,
}
use multi_cloud_ai_orchestra.Domain.Plan.{ExecutionStep, ExecutionStep-discrete, ExecutionPlan}
use multi_cloud_ai_orchestra.Domain.Plan.Order.{
  ids, satisfied, remove, remove_all, or_first, rounds, get_execution_order,
}

remove-head : (x : ExecutionStep) (xs : List ExecutionStep) → remove x (x ∷ xs) ≡ xs
unfolding remove
remove-head x xs = if_pos (ExecutionStep-discrete x x) refl xs (x ∷ remove x xs)

remove-other :
    (y x : ExecutionStep) (xs : List ExecutionStep) → x ≢ y → remove y (x ∷ xs) ≡ x ∷ remove y xs
unfolding remove
remove-other y x xs h = if_neg (ExecutionStep-discrete x y) h xs (x ∷ remove y xs)

module _ (p : ExecutionStep → Bool) where
  abbrev Passes : ExecutionStep → Type 0
  Passes x = p x ≡ true

  differ : (x y : ExecutionStep) → p x ≡ false → p y ≡ true → x ≢ y
  differ x y f t e = false≢true (sym f ∙ ap p e ∙ t)

  pub select-All : (xs : List ExecutionStep) → All Passes (select p xs)
  select-All [] = tt
  select-All (x ∷ xs) = ground (arith, select-All xs)

  remove_all-skip :
      (ys : List ExecutionStep) (x : ExecutionStep) (xs : List ExecutionStep)
      → p x ≡ false
      → All Passes ys
      → remove_all ys (x ∷ xs) ≡ x ∷ remove_all ys xs
  unfolding remove_all
  remove_all-skip [] x xs h k = refl
  remove_all-skip (y ∷ ys) x xs h k =
      rw (remove-other y x xs (differ x y h k.0)) (remove_all-skip ys x (remove y xs) h k.1)

  -- Removing what a test selects leaves what it rejects.
  pub remove_all-select :
      (xs : List ExecutionStep) → remove_all (select p xs) xs ≡ select (λ x. not (p x)) xs
  unfolding remove_all
  remove_all-select [] = refl
  remove_all-select (x ∷ xs) = elim (Bool-cases (p x)) [
    | inl t ↦ rw t (ap (remove_all (select p xs)) (remove-head x xs) ∙ remove_all-select xs)
    | inr f ↦ rw f (
        remove_all-skip (select p xs) x xs f (select-All xs)
        ∙ ap (λ l. x ∷ l) (remove_all-select xs))
  ]

  pub select-reject-perm :
      (xs : List ExecutionStep) → Perm (select p xs ++ select (λ x. not (p x)) xs) xs
  select-reject-perm [] = Perm.rfl
  select-reject-perm (x ∷ xs) = elim (Bool-cases (p x)) [
    | inl t ↦ rw t (Perm.cons x (select-reject-perm xs))
    | inr f ↦ rw f (Perm.trans (perm_middle (select p xs) _) (Perm.cons x (select-reject-perm xs)))
  ]

  length-reject :
      (xs : List ExecutionStep)
      → length (select p xs) + length (select (λ x. not (p x)) xs) ≡ length xs
  length-reject [] = refl
  length-reject (x ∷ xs) = ground (arith, length-reject xs)

-- What one round takes and leaves.
module _ (p : ExecutionStep → Bool) (first : ExecutionStep) (others : List ExecutionStep) where
  abbrev pub wave : List ExecutionStep
  wave = or_first (select p (first ∷ others)) first

  abbrev pub left : List ExecutionStep
  left = remove_all wave (first ∷ others)

  pub record Splits (w l : List ExecutionStep) : Type 0 where
    pub perm : Perm (w ++ l) (first ∷ others)
    pub shorter : length l ≤ length others
    pub some_step : w ≢ []

  Splits-select :
      (w : List ExecutionStep)
      → select p (first ∷ others) ≡ w
      → Splits (or_first w first) (remove_all (or_first w first) (first ∷ others))
  unfolding or_first remove_all
  Splits-select [] h =
      rw (remove-head first others)
        (record { perm = Perm.rfl; shorter = omega arith; some_step = λ e. cc })
  Splits-select (y ∷ w) h =
      let rest = select (λ x. not (p x)) (first ∷ others) in
      subst (Splits (y ∷ w))
        (sym (remove_all-select p (first ∷ others)) ∙ ap (λ l. remove_all l (first ∷ others)) h)
        (record {
          perm =
              subst (λ l. Perm (l ++ rest) (first ∷ others)) h
                (select-reject-perm p (first ∷ others));
          shorter = omega (arith, length-reject p (first ∷ others), ap length h);
          some_step = λ e. cc;
        })

  pub wave-Splits : Splits wave left
  wave-Splits = Splits-select (select p (first ∷ others)) refl

rounds-perm :
    (fuel : ℕ) (completed : List String) (remaining : List ExecutionStep)
    → length remaining ≤ fuel
    → Perm (flatten (rounds fuel completed remaining)) remaining
unfolding rounds flatten
rounds-perm zero completed [] h = Perm.rfl
rounds-perm zero completed (first ∷ others) h = absurd (omega arith)
rounds-perm (suc fuel) completed [] h = Perm.rfl
rounds-perm (suc fuel) completed (first ∷ others) h =
    let p = satisfied completed in
    let splits = wave-Splits p first others in
    Perm.trans
      (Perm.append_left (wave p first others) (
        rounds-perm fuel (completed ++ ids (wave p first others)) (left p first others)
          (omega (arith, splits.shorter))))
      splits.perm

rounds-nonempty :
    (fuel : ℕ) (completed : List String) (remaining : List ExecutionStep)
    → All (λ w. w ≢ []) (rounds fuel completed remaining)
unfolding rounds flatten
rounds-nonempty zero completed remaining = tt
rounds-nonempty (suc fuel) completed [] = tt
rounds-nonempty (suc fuel) completed (first ∷ others) =
    let p = satisfied completed in
    (
      (wave-Splits p first others).some_step,
      rounds-nonempty fuel (completed ++ ids (wave p first others)) (left p first others),
    )

-- The loop ends for every plan, also for one with circular or dangling dependencies: the waves
-- hold the plan's steps, each as often as the plan has it, and no wave is empty.
pub get_execution_order-perm :
    (plan : ExecutionPlan)
    → Perm (flatten (get_execution_order plan)) plan.steps
      × All (λ w. w ≢ []) (get_execution_order plan)
unfolding get_execution_order
get_execution_order-perm plan = (
  rounds-perm (length plan.steps) [] plan.steps (omega arith),
  rounds-nonempty (length plan.steps) [] plan.steps,
)

-- ===== src/Workflow/Request/Truncate.antt =====
-- `truncateStepsAtRejection`: what a client is shown of the steps.
use tgs_hrms.Base.{
  ◌≡◌, refl, ap, Bool, false, List, [], ◌∷◌, ◌++◌, arith, any, All, sort_by, Ascending,
  sort_by-Ascending, Bool-cases, inl, inr,
}
use tgs_hrms.Workflow.{WorkflowStep}
use tgs_hrms.Workflow.Request.{
  step_order_of, is_rejected, cut_at_rejection, truncate_steps_at_rejection,
}

abbrev any_rejected : List WorkflowStep → Bool
any_rejected = any (λ s. is_rejected s.status)

-- the steps but the last
abbrev pub butlast : List WorkflowStep → List WorkflowStep
butlast [] = []
butlast (s ∷ []) = []
butlast (s ∷ s' ∷ steps) = s ∷ butlast (s' ∷ steps)

-- a prefix of the steps: the rest follows it
cut_prefix :
    (steps : List WorkflowStep)
    → (rest : List WorkflowStep) × (steps ≡ cut_at_rejection steps ++ rest)
unfolding cut_at_rejection
cut_prefix [] = ([], refl)
cut_prefix (s ∷ steps) =
    let (rest, same) = cut_prefix steps in
    elim (Bool-cases (is_rejected s.status)) [
      | inl e ↦ (steps, rw e refl)
      | inr e ↦ (rest, rw e (ap (λ (l : List WorkflowStep). s ∷ l) same))
    ]

-- no step but the last is rejected
cut_butlast :
    (steps : List WorkflowStep)
    → All (λ s. is_rejected s.status ≡ false) (butlast (cut_at_rejection steps))
unfolding cut_at_rejection
cut_butlast [] = tt
cut_butlast (s ∷ []) = ground arith
cut_butlast (s ∷ s' ∷ steps) = ground (arith, cut_butlast (s' ∷ steps))

-- no step is cut unless one is rejected
cut_none : (steps : List WorkflowStep) → any_rejected steps ≡ false → cut_at_rejection steps ≡ steps
unfolding cut_at_rejection
cut_none [] h = refl
cut_none (s ∷ steps) h = ground (arith, cut_none steps)

any-cut : (steps : List WorkflowStep) → any_rejected (cut_at_rejection steps) ≡ any_rejected steps
unfolding cut_at_rejection
any-cut [] = refl
any-cut (s ∷ steps) = ground (arith, any-cut steps)

-- Whatever the steps, the client is shown the sorted steps up to the first rejected one: a prefix of
-- them, in which no step but the last is rejected, which has a rejected step if they have one, and
-- which is all of them if they have none.
pub truncate_prefix :
    (steps : List WorkflowStep)
    → let sorted = sort_by step_order_of steps in
      let shown = truncate_steps_at_rejection steps in
      ((rest : List WorkflowStep) × (sorted ≡ shown ++ rest))
      × Ascending step_order_of sorted
      × All (λ s. is_rejected s.status ≡ false) (butlast shown)
      × (any_rejected shown ≡ any_rejected sorted)
      × (any_rejected sorted ≡ false → shown ≡ sorted)
unfolding truncate_steps_at_rejection
truncate_prefix steps =
    let sorted = sort_by step_order_of steps in
    (
      cut_prefix sorted,
      sort_by-Ascending step_order_of steps,
      cut_butlast sorted,
      any-cut sorted,
      cut_none sorted,
    )

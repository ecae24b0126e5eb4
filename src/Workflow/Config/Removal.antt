-- ===== src/Workflow/Config/Removal.antt =====
-- Which rows deleteWorkflowConfigStep of src/modules/workflow/workflow.service.ts removes and writes.
use tgs_hrms.Base.{
  sym, ◌∙◌, ap, ℕ, ◌+◌, ◌≡◌, refl, Text, Bool, true, not, ◌&&◌, ◌||◌, List, [], ◌∷◌, arith, ◌==◌,
  any, keep, map, All, any-sort_by, any-keep,
}
use tgs_hrms.Workflow.{RequestType, WorkflowConfig}
use tgs_hrms.Workflow.Config.{
  is_of, order_of, find_configs, renumber, remove_step, is_among, remaining_steps,
}

-- what a step says besides its number
abbrev pub content : WorkflowConfig → Text × Text × Bool
content r = (r.approver_role, r.step_label, r.is_active)

pub content-renumber :
    (k : ℕ) (rows : List WorkflowConfig) → map content (renumber k rows) ≡ map content rows
unfolding renumber
content-renumber k [] = refl
content-renumber k (r ∷ rows) = ap (λ l. content r ∷ l) (content-renumber (k + 1) rows)

module _ (q : WorkflowConfig → Bool) where
  abbrev is_covered : List WorkflowConfig → WorkflowConfig → Bool
  is_covered xs r = not (q r) || any (λ x. q x && (x.step_order == r.step_order)) xs

  is_covered_cons :
      (x : WorkflowConfig) (xs ys : List WorkflowConfig)
      → All (λ r. is_covered xs r ≡ true) ys
      → All (λ r. is_covered (x ∷ xs) r ≡ true) ys
  is_covered_cons x xs [] h = tt
  is_covered_cons x xs (y ∷ ys) h = (ground (arith, h.0), is_covered_cons x xs ys h.1)

  -- each row that the test selects is one of those that it selects
  is_covered_self : (xs : List WorkflowConfig) → All (λ r. is_covered xs r ≡ true) xs
  is_covered_self [] = tt
  is_covered_self (x ∷ xs) = (ground arith, is_covered_cons x xs xs (is_covered_self xs))

module _ (tenant : ℕ) (type : RequestType) (order : ℕ) where
  abbrev stays : WorkflowConfig → Bool
  stays r = is_of tenant type r && not (r.step_order == order)

  any-remaining_steps :
      (k : ℕ) (rows : List WorkflowConfig)
      → any (λ x. x.step_order == k) (remaining_steps order (find_configs tenant type rows))
        ≡ any
            (λ x. is_of tenant type x && (not (x.step_order == order) && (x.step_order == k)))
            rows
  unfolding remaining_steps find_configs
  any-remaining_steps k rows =
      any-sort_by (λ x. x.step_order == k) order_of _
      ∙ any-keep (λ x. x.step_order == k) (λ r. not (r.step_order == order)) _
      ∙ any-sort_by (λ x. not (x.step_order == order) && (x.step_order == k)) order_of _
      ∙ any-keep (λ x. not (x.step_order == order) && (x.step_order == k)) (is_of tenant type) rows

  any_assoc :
      (k : ℕ) (rows : List WorkflowConfig)
      → any (λ x. stays x && (x.step_order == k)) rows
        ≡ any
            (λ x. is_of tenant type x && (not (x.step_order == order) && (x.step_order == k)))
            rows
  any_assoc k [] = refl
  any_assoc k (r ∷ rows) = ground (arith, any_assoc k rows)

  removed_and_saved :
      (rows old xs : List WorkflowConfig)
      → ((k : ℕ)
          → any (λ x. x.step_order == k) old ≡ any (λ x. stays x && (x.step_order == k)) rows)
      → All (λ r. is_covered stays rows r ≡ true) xs
      → keep (λ r. not (is_among tenant type old r)) (remove_step tenant type order xs)
        ≡ keep (λ r. not (is_of tenant type r)) xs
  removed_and_saved rows old [] e h = refl
  removed_and_saved rows old (x ∷ xs) e h =
      ground (arith, e x.step_order, h.0, removed_and_saved rows old xs e h.1)

  -- after the removal and before the save, the rows that the save leaves alone are those of the
  -- other tenants and types
  pub others_left :
      (rows : List WorkflowConfig)
      → keep
          (λ r.
            not (is_among tenant type (remaining_steps order (find_configs tenant type rows)) r))
          (remove_step tenant type order rows)
        ≡ keep (λ r. not (is_of tenant type r)) rows
  others_left rows =
      removed_and_saved rows (remaining_steps order (find_configs tenant type rows)) rows
        (λ k. any-remaining_steps k rows ∙ sym (any_assoc k rows)) (is_covered_self stays rows)

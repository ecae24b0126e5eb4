-- ===== src/Workflow/Config/Order.antt =====
-- The configured steps of a tenant and a type stay numbered 1, 2, 3, … as steps are added and
-- deleted.
use tgs_hrms.Base.{
  ℕ, suc, ◌+◌, ◌≤◌, ◌<◌, ◌≡◌, refl, sym, ap, ◌∙◌, Text, Bool, true, false, not, Option, List, [],
  ◌∷◌, ◌++◌, none, some, arith, ◌==◌, length, keep, All, sort_by, Numbered, sort_by-Numbered,
  keep-append, keep-keep-not, keep-eq_self, sort_by-append, All-sort_by_inv, ◌&&◌, Numbered-append,
  Numbered-bounds, All-sort_by, All-keep, All-keep_sat, keep-not-replace, ok, any, find, map,
  any-sort_by, any-keep, find-any, Option-cases, Bool-cases, inl, inr,
}
use native.Mathlib.Numerals.{add-one}
use tgs_hrms.Workflow.{RequestType, leave, wfh, overtime, type_eq, WorkflowConfig}
use tgs_hrms.Workflow.Config.{
  WorkflowSession, is_of, order_of, find_configs, next_order, renumber, add_workflow_config_step,
  delete_workflow_config_step, is_step, remove_step, save_all, remaining_steps,
}
use tgs_hrms.Workflow.Config.Removal.{content, content-renumber, others_left}

renumber-Numbered : (k : ℕ) (rows : List WorkflowConfig) → Numbered order_of k (renumber k rows)
unfolding renumber
renumber-Numbered k [] = tt
renumber-Numbered k (r ∷ rows) = (refl, simp add-one (renumber-Numbered (suc k) rows))

module _ (tenant : ℕ) (type : RequestType) where
  abbrev IsOf : WorkflowConfig → Type 0
  IsOf r = is_of tenant type r ≡ true

  All-renumber : (k : ℕ) (rows : List WorkflowConfig) → All IsOf rows → All IsOf (renumber k rows)
  unfolding renumber
  All-renumber k [] h = tt
  All-renumber k (r ∷ rows) h = (h.0, All-renumber (k + 1) rows h.1)

  find_configs-replace :
      (rows new : List WorkflowConfig)
      → All IsOf new
      → Numbered order_of 1 new
      → find_configs tenant type (keep (λ r. not (is_of tenant type r)) rows ++ new) ≡ new
  unfolding find_configs
  find_configs-replace rows new h n =
      ap (sort_by order_of) (
        keep-append (is_of tenant type) (keep (λ r. not (is_of tenant type r)) rows) new
        ∙ cc (keep-keep-not (is_of tenant type) rows, keep-eq_self (is_of tenant type) new h))
      ∙ sort_by-Numbered order_of 1 new n

  -- What a successful deletion has found, returns and writes.
  delete_ok :
      (order : ℕ) (s : WorkflowSession) {rows : List WorkflowConfig}
      → (delete_workflow_config_step tenant type order s).0 ≡ ok rows
      → let all = find_configs tenant type s.tables.configs in
        let old = remaining_steps order all in
        ((r : WorkflowConfig) × (find (is_step tenant type order) s.tables.configs ≡ some r))
        × ((length all == 1) ≡ false)
        × (rows ≡ sort_by order_of (renumber 1 old))
        × ((delete_workflow_config_step tenant type order s).1.tables.configs
            ≡ save_all tenant type old
                (renumber 1 old)
                (remove_step tenant type order s.tables.configs))
  unfolding delete_workflow_config_step
  delete_ok order s h = elim (Option-cases (find (is_step tenant type order) s.tables.configs)) [
    | inl e ↦ let refused = rw (e, delete_workflow_config_step) at h in ground arith
    | inr (r, e) ↦ elim (Bool-cases (length (find_configs tenant type s.tables.configs) == 1)) [
      | inl f ↦ let refused = rw (e, f, delete_workflow_config_step) at h in ground arith
      | inr f ↦
          let done = rw (e, f, delete_workflow_config_step) at h in
          ((r, e), f, ground (arith, done), rw (e, f, delete_workflow_config_step) refl)
    ]
  ]

  remaining-IsOf :
      (order : ℕ) (rows : List WorkflowConfig)
      → All IsOf (renumber 1 (remaining_steps order (find_configs tenant type rows)))
  unfolding find_configs remaining_steps
  remaining-IsOf order rows = All-renumber 1 _ (
      All-sort_by IsOf order_of _
        (All-keep IsOf _ _ (All-sort_by IsOf order_of _ (All-keep_sat (is_of tenant type) rows))))

  found_among :
      (order : ℕ) (rows : List WorkflowConfig) (r : WorkflowConfig)
      → find (is_step tenant type order) rows ≡ some r
      → any (λ x. x.step_order == order) (find_configs tenant type rows) ≡ true
  unfolding find_configs
  found_among order rows r e =
      any-sort_by (λ x. x.step_order == order) order_of _
      ∙ any-keep (λ x. x.step_order == order) (is_of tenant type) rows
      ∙ find-any (is_step tenant type order) rows r e

  some_left :
      (p : WorkflowConfig → Bool) (xs : List WorkflowConfig)
      → any p xs ≡ true
      → (length xs == 1) ≡ false
      → 2 ≤ length xs
  some_left p [] h f = ground arith
  some_left p (x ∷ []) h f = ground arith
  some_left p (x ∷ y ∷ xs) h f = omega arith

  -- A deletion that returns has found a row of the tenant and the type with the order, and two rows of
  -- the tenant and the type at least. The steps that it returns are the other rows of the tenant and the
  -- type in their order, with their roles, labels and activity as they were, and are numbered 1, 2, 3, …,
  -- however they were numbered before. They are the steps of the tenant and the type after it, and the
  -- rows of the other tenants and types are as they were.
  pub delete-Numbered :
      (order : ℕ) (s : WorkflowSession) {rows : List WorkflowConfig}
      → (delete_workflow_config_step tenant type order s).0 ≡ ok rows
      → let all = find_configs tenant type s.tables.configs in
        let after = (delete_workflow_config_step tenant type order s).1.tables.configs in
        (any (λ r. r.step_order == order) all ≡ true)
        × (2 ≤ length all)
        × (map content rows
            ≡ map content (sort_by order_of (keep (λ r. not (r.step_order == order)) all)))
        × Numbered order_of 1 rows
        × (find_configs tenant type after ≡ rows)
        × (keep (λ r. not (is_of tenant type r)) after
            ≡ keep (λ r. not (is_of tenant type r)) s.tables.configs)
  unfolding remaining_steps
  delete-Numbered order s h =
      let (found, several, returned, saved) = delete_ok order s h in
      let configs = s.tables.configs in
      let all = find_configs tenant type configs in
      let old = remaining_steps order all in
      let new = renumber 1 old in
      let numbered = renumber-Numbered 1 old in
      let same = returned ∙ sort_by-Numbered order_of 1 new numbered in
      let mine = remaining-IsOf order configs in
      let there = found_among order configs found.0 found.1 in
      let written = saved ∙ ap (λ l. l ++ new) (others_left tenant type order configs) in
      (
        there,
        some_left (λ r. r.step_order == order) all there several,
        ap (map content) same ∙ content-renumber 1 old,
        rw same numbered,
        rw (written, same) (find_configs-replace configs new mine numbered),
        rw written (keep-not-replace (is_of tenant type) configs new mine),
      )

  next_order-Numbered :
      (k : ℕ) (r : WorkflowConfig) (rows : List WorkflowConfig)
      → Numbered order_of k (r ∷ rows)
      → next_order (r ∷ rows) ≡ length (r ∷ rows) + k
  unfolding next_order
  next_order-Numbered k r [] h = omega arith
  next_order-Numbered k r (r' ∷ rows) h = omega (arith, next_order-Numbered (suc k) r' rows h.1)

  next_order-eq :
      (rows : List WorkflowConfig) → Numbered order_of 1 rows → next_order rows ≡ length rows + 1
  unfolding next_order
  next_order-eq [] h = omega arith
  next_order-eq (r ∷ rows) h = next_order-Numbered 1 r rows h

  IsOf-self :
      (order : ℕ) (role label : Text) (active : Bool)
      → IsOf (record {
        tenant_id = tenant;
        request_type = type;
        step_order = order;
        approver_role = role;
        step_label = label;
        is_active = active;
      })
  IsOf-self order role label active = split type
    where
      split : (t : RequestType) → ((tenant == tenant) && type_eq t t) ≡ true
      split leave = ground arith
      split wfh = ground arith
      split overtime = ground arith

  order-le-next :
      (rows : List WorkflowConfig)
      → Numbered order_of 1 (find_configs tenant type rows)
      → All
          (λ r. order_of r ≤ next_order (find_configs tenant type rows))
          (keep (is_of tenant type) rows)
  unfolding find_configs
  order-le-next rows h = All-sort_by_inv _ order_of (keep (is_of tenant type) rows) (
      below (find_configs tenant type rows)
        (Numbered-bounds order_of 1 (find_configs tenant type rows) h))
    where
      below :
          (xs : List WorkflowConfig)
          → All
              (λ x. (1 ≤ order_of x) × (order_of x < length (find_configs tenant type rows) + 1))
              xs
          → All (λ r. order_of r ≤ next_order (find_configs tenant type rows)) xs
      below [] a = tt
      below (x ∷ xs) a =
          (omega (arith, next_order-eq (find_configs tenant type rows) h, a.0), below xs a.1)

  find_configs-append :
      (rows : List WorkflowConfig) (c : WorkflowConfig)
      → Numbered order_of 1 (find_configs tenant type rows)
      → IsOf c
      → c.step_order ≡ next_order (find_configs tenant type rows)
      → find_configs tenant type (rows ++ c ∷ []) ≡ find_configs tenant type rows ++ c ∷ []
  unfolding find_configs
  find_configs-append rows c h mine e =
      ap (sort_by order_of) (
        keep-append (is_of tenant type) rows (c ∷ [])
        ∙ ap (λ l. keep (is_of tenant type) rows ++ l)
            (keep-eq_self (is_of tenant type) (c ∷ []) (mine, tt)))
      ∙ sort_by-append order_of c (keep (is_of tenant type) rows) (rw e (order-le-next rows h))

  module _ (role label : Text) (active : Option Bool) (s : WorkflowSession) where
    abbrev created : WorkflowConfig
    created = record {
      tenant_id = tenant;
      request_type = type;
      step_order = next_order (find_configs tenant type s.tables.configs);
      approver_role = role;
      step_label = label;
      is_active = elim active [ none ↦ true | some b ↦ b ];
    }

    -- Where the steps of the tenant and the type are numbered 1, 2, 3, …, they still are after a
    -- step is added; there is one step more, at the end; and the method returns all of them.
    pub add-Numbered :
        Numbered order_of 1 (find_configs tenant type s.tables.configs)
        → let (r, s') = add_workflow_config_step tenant type role label active s in
          (r ≡ ok (find_configs tenant type s'.tables.configs))
          × Numbered order_of 1 (find_configs tenant type s'.tables.configs)
          × (find_configs tenant type s'.tables.configs
              ≡ find_configs tenant type s.tables.configs ++ created ∷ [])
    unfolding add_workflow_config_step
    add-Numbered h =
        let before = find_configs tenant type s.tables.configs in
        let grown =
          find_configs-append s.tables.configs created h
            (IsOf-self (next_order before) role label created.is_active) refl in
        let numbered =
          Numbered-append order_of 1 created before h (omega (arith, next_order-eq before h)) in
        (ap ok (sort_by-Numbered order_of 1 _ numbered ∙ sym grown), rw grown numbered, grown)

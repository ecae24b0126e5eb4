-- ===== src/Workflow/Request/Decide.antt =====
-- Deciding the current step keeps a request sound, whatever the decision.
use tgs_hrms.Base.{
  ℕ, ◌+◌, ◌≡◌, sym, ◌∙◌, ◌≢◌, Text, true, false, ◌&&◌, inl, inr, Option, some, List, arith, ◌==◌,
  length, All, find_sat, Numbered, ok, text_eq, lower, Bool-cases,
}
use tgs_hrms.Workflow.{RequestStatus, StepStatus, StepAction, WorkflowStep, WorkflowRequest}
use tgs_hrms.Workflow.Request.{
  step_order_of, is_open, is_pending, is_last_step, find_current, check_step, step_status, sign,
  save_step, settle, decide, cancel_row,
}
use tgs_hrms.Workflow.Request.Sound.{
  mark, IsSigned, IsMarked, IsSound, save_step-Numbered, length-save_step, All-save_step, mark_same,
  mark_next,
}

pub find_current_order :
    (r : WorkflowRequest) (step : WorkflowStep)
    → find_current r ≡ some step
    → (step.step_order ≡ r.current_step_order) × (is_pending step.status ≡ true)
unfolding find_current
find_current_order r step e = ground (
  arith,
  find_sat (λ s. s.step_order == r.current_step_order && is_pending s.status) r.steps step e,
)

-- What the checks have established when they pass.
pub check_step_passed :
    (r : WorkflowRequest) (actor : ℕ) (role : Text) (step : WorkflowStep)
    → check_step r actor role ≡ ok step
    → (is_open r.status ≡ true)
      × (find_current r ≡ some step)
      × (actor ≢ r.requestor_id)
      × (text_eq (lower step.approver_role) (lower role) ≡ true)
unfolding check_step
check_step_passed r actor role step h = ground arith

module _ (r : WorkflowRequest) (step : WorkflowStep) (actor : ℕ) (remarks : Option Text) (now : ℕ)
    (sound : IsSound r) (is_live : is_open r.status ≡ true) (current : find_current r ≡ some step)
    (other : actor ≢ r.requestor_id) where
  signed_steps : StepAction → List WorkflowStep
  signed_steps action = save_step (sign step action actor remarks now) r.steps

  at_current : step.step_order ≡ r.current_step_order
  at_current = (find_current_order r step current).0

  pending_mark : (s : RequestStatus) → is_open s ≡ true → mark s ≡ StepStatus.pending
  pending_mark s h = ground arith

  signed_Numbered : (action : StepAction) → Numbered step_order_of 1 (signed_steps action)
  unfolding signed_steps
  signed_Numbered action = save_step-Numbered 1 _ r.steps sound.numbered

  signed_length : (action : StepAction) → length (signed_steps action) ≡ r.total_steps
  unfolding signed_steps
  signed_length action = length-save_step _ r.steps ∙ sound.counted

  signed_steps-IsSigned :
      (action : StepAction)
      → All (λ s. IsSigned r.requestor_id s.status s.approver_id) (signed_steps action)
  unfolding signed_steps
  signed_steps-IsSigned action =
      All-save_step (λ s. IsSigned r.requestor_id s.status s.approver_id) _ _ r.steps
        (of_action action) (λ s h n. h) sound.signed
    where
      of_action : (a : StepAction) → IsSigned r.requestor_id (step_status a) (some actor)
      of_action StepAction.approved = other
      of_action StepAction.rejected = other

  -- the level decided, at the same current level
  signed_steps-IsMarked :
      (action : StepAction)
      → All (IsMarked r.current_step_order (step_status action)) (signed_steps action)
  unfolding signed_steps
  signed_steps-IsMarked action =
      All-save_step (IsMarked r.current_step_order (mark r.status)) _ _ r.steps
        (ground (arith, at_current))
        (λ s h n.
          mark_same r.current_step_order (mark r.status) (step_status action) s h
            (λ e. n (e ∙ sym at_current)))
        sound.marked

  -- the level approved, and the next one current
  signed_steps-IsMarked_next :
      All
        (IsMarked (r.current_step_order + 1) StepStatus.pending)
        (signed_steps StepAction.approved)
  unfolding signed_steps
  signed_steps-IsMarked_next =
      All-save_step (IsMarked r.current_step_order (mark r.status)) _ _ r.steps
        (ground (arith, at_current))
        (λ s h n.
          mark_next r.current_step_order s (rw (pending_mark r.status is_live) at h)
            (λ e. n (e ∙ sym at_current)))
        sound.marked

  rejected-IsSound :
      IsSound
        (record r { steps = signed_steps StepAction.rejected; status = RequestStatus.rejected })
  rejected-IsSound = record {
    numbered = signed_Numbered StepAction.rejected;
    counted = signed_length StepAction.rejected;
    low = sound.low;
    high = sound.high;
    marked = signed_steps-IsMarked StepAction.rejected;
    signed = signed_steps-IsSigned StepAction.rejected;
    first = λ e. cc;
    later = λ e. cc;
    last = λ e. cc;
  }

  approved-IsSound :
      is_last_step r ≡ true
      → IsSound
          (record r { steps = signed_steps StepAction.approved; status = RequestStatus.approved })
  approved-IsSound done = record {
    numbered = signed_Numbered StepAction.approved;
    counted = signed_length StepAction.approved;
    low = sound.low;
    high = sound.high;
    marked = signed_steps-IsMarked StepAction.approved;
    signed = signed_steps-IsSigned StepAction.approved;
    first = λ e. cc;
    later = λ e. cc;
    last = λ e. ground (arith, sound.high);
  }

  advanced-IsSound :
      is_last_step r ≡ false
      → IsSound (record r {
        steps = signed_steps StepAction.approved;
        current_step_order = r.current_step_order + 1;
        status = RequestStatus.in_review;
      })
  advanced-IsSound more = record {
    numbered = signed_Numbered StepAction.approved;
    counted = signed_length StepAction.approved;
    low = omega arith;
    high = ground arith;
    marked = signed_steps-IsMarked_next;
    signed = signed_steps-IsSigned StepAction.approved;
    first = λ e. cc;
    later = λ e. omega (arith, sound.low);
    last = λ e. cc;
  }

  -- Whoever may decide the current step of a sound request, and however, the request stays sound.
  pub decide-IsSound : (action : StepAction) → IsSound (decide r step action actor remarks now)
  unfolding decide signed_steps
  decide-IsSound StepAction.rejected = rejected-IsSound
  decide-IsSound StepAction.approved = elim (Bool-cases (is_last_step r)) [
    | inl done ↦ rw (done, settle) (approved-IsSound done)
    | inr more ↦ rw (more, settle) (advanced-IsSound more)
  ]

-- Cancelling a request that is not decided keeps it sound.
pub cancel_row-IsSound :
    (r : WorkflowRequest) → IsSound r → mark r.status ≡ StepStatus.pending → IsSound (cancel_row r)
cancel_row-IsSound r h e = record {
  numbered = h.numbered;
  counted = h.counted;
  low = h.low;
  high = h.high;
  marked = rw e at h.marked;
  signed = h.signed;
  first = λ e. cc;
  later = λ e. cc;
  last = λ e. cc;
}

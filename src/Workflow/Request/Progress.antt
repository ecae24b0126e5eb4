-- ===== src/Workflow/Request/Progress.antt =====
-- A sound open request can always be decided, by whoever has the role of its current step and did
-- not make it, and it is approved after one approval for each level that is left.
use tgs_hrms.Base.{
  ◌↔◌, ℕ, suc, ◌+◌, ◌≤◌, ◌<◌, ◌≡◌, refl, ◌≢◌, Text, true, false, ◌&&◌, Option, none, some, List, [],
  ◌∷◌, arith, ◌==◌, length, find, All, Numbered, Error, ok, err, text_eq, lower, Bool-cases, inl,
  inr,
}
use tgs_hrms.Workflow.{RequestStatus, StepStatus, StepAction, WorkflowStep, WorkflowRequest}
use tgs_hrms.Workflow.Config.{WorkflowSession}
use tgs_hrms.Workflow.Request.{
  step_order_of, is_open, is_pending, is_last_step, find_current, find_request, check_step, decide,
  act_on_current_step,
}
use tgs_hrms.Workflow.Request.Sound.{mark, IsMarked, IsSound}
use tgs_hrms.Workflow.Request.Decide.{decide-IsSound}

find_marked :
    (k current : ℕ) (steps : List WorkflowStep)
    → Numbered step_order_of k steps
    → k ≤ current
    → current < length steps + k
    → All (IsMarked current StepStatus.pending) steps
    → (step : WorkflowStep) × (find (λ s. s.step_order == current && is_pending s.status) steps
        ≡ some step)
find_marked k current [] n l h m = absurd (omega arith)
find_marked k current (s ∷ steps) n l h m = elim (Bool-cases (s.step_order == current)) [
  | inl e ↦ (s, ground arith)
  | inr e ↦
      let (step, found) = find_marked (suc k) current steps n.1 (ground arith) (omega arith) m.1 in
      (step, rw e found)
]

pub open_mark : (s : RequestStatus) → is_open s ≡ true → mark s ≡ StepStatus.pending
open_mark s h = ground arith

-- A sound request that is open has a pending step at its current level.
pub IsSound-find_current :
    (r : WorkflowRequest)
    → IsSound r
    → is_open r.status ≡ true
    → (step : WorkflowStep) × (find_current r ≡ some step)
unfolding find_current
IsSound-find_current r h live =
    find_marked 1 r.current_step_order r.steps h.numbered h.low (omega (arith, h.counted, h.high))
      (rw (open_mark r.status live) at h.marked)

check_step_enabled :
    (r : WorkflowRequest) (actor : ℕ) (role : Text) (step : WorkflowStep)
    → find_current r ≡ some step
    → is_open r.status ≡ true
    → actor ≢ r.requestor_id
    → text_eq (lower step.approver_role) (lower role) ≡ true
    → check_step r actor role ≡ ok step
unfolding check_step
check_step_enabled r actor role step e live other has_role = ground arith

-- Who has the role of the current step of a sound open request, and did not make the request, is
-- never refused.
pub act_enabled :
    (id actor : ℕ) (role : Text) (tenant : ℕ) (action : StepAction) (remarks : Option Text)
    (s : WorkflowSession) (r : WorkflowRequest)
    → find_request id tenant s.tables.requests ≡ some r
    → IsSound r
    → is_open r.status ≡ true
    → actor ≢ r.requestor_id
    → ((step : WorkflowStep)
        → find_current r ≡ some step
        → text_eq (lower step.approver_role) (lower role) ≡ true)
    → (e : Error) → (act_on_current_step id actor role tenant action remarks s).0 ≢ err e
unfolding act_on_current_step
act_enabled id actor role tenant action remarks s r found h live other has_role e =
    let (step, current) = IsSound-find_current r h live in
    ground (arith, check_step_enabled r actor role step current live other (has_role step current))

-- approvals by one user after another, as long as there is a current step
pub approve_by : List ℕ → ℕ → WorkflowRequest → WorkflowRequest
approve_by [] now r = r
approve_by (actor ∷ actors) now r = elim (find_current r) [
  | none ↦ r
  | some step ↦ approve_by actors now (decide r step StepAction.approved actor none now)
]

module _ (r : WorkflowRequest) (step : WorkflowStep) (actor now : ℕ) where
  approved_last :
      is_last_step r ≡ true
      → (decide r step StepAction.approved actor none now).status ≡ RequestStatus.approved
  unfolding decide
  approved_last h = ground arith

  advanced :
      is_last_step r ≡ false
      → let r' = decide r step StepAction.approved actor none now in
        (r'.status ≡ RequestStatus.in_review)
        × (r'.current_step_order ≡ r.current_step_order + 1)
        × (r'.total_steps ≡ r.total_steps)
        × (r'.requestor_id ≡ r.requestor_id)
  unfolding decide
  advanced h = ground arith

approve_by_next :
    (actor now : ℕ) (actors : List ℕ) (r : WorkflowRequest) (step : WorkflowStep)
    → find_current r ≡ some step
    → approve_by (actor ∷ actors) now r
      ≡ approve_by actors now (decide r step StepAction.approved actor none now)
unfolding approve_by
approve_by_next actor now actors r step e = rw (e, approve_by)

-- the last level: one approval closes the request, so no actor is left
approve_by_last :
    (now actor : ℕ) (actors : List ℕ) (r : WorkflowRequest) (step : WorkflowStep)
    → is_last_step r ≡ true
    → length (actor ∷ actors) + r.current_step_order ≤ r.total_steps + 1
    → (approve_by actors now (decide r step StepAction.approved actor none now)).status
      ≡ RequestStatus.approved
unfolding approve_by
approve_by_last now actor [] r step h few = approved_last r step actor now h
approve_by_last now actor (a ∷ actors) r step h few = absurd (ground arith)

-- A sound open request is approved by one approval for each level that is left, by users who did
-- not make it, and with fewer approvals it is not.
pub approve_by_each :
    (now : ℕ) (actors : List ℕ) (r : WorkflowRequest)
    → IsSound r
    → is_open r.status ≡ true
    → All (λ a. a ≢ r.requestor_id) actors
    → length actors + r.current_step_order ≤ r.total_steps + 1
    → ((approve_by actors now r).status ≡ RequestStatus.approved)
      ↔ (length actors + r.current_step_order ≡ r.total_steps + 1)
unfolding approve_by
approve_by_each now [] r h live others few =
    (λ e. ground arith, λ e. absurd (omega (arith, h.high)))
approve_by_each now (actor ∷ actors) r h live others few =
    let (step, found) = IsSound-find_current r h live in
    rw (approve_by_next actor now actors r step found) (elim (Bool-cases (is_last_step r)) [
      | inl done ↦
          (λ e. ground (arith, h.high), λ e. approve_by_last now actor actors r step done few)
      | inr more ↦
          let (in_review, current, total, requestor) = advanced r step actor now more in
          let r' = decide r step StepAction.approved actor none now in
          let ih =
            approve_by_each now actors r'
              (decide-IsSound r step actor none now h live found others.0 StepAction.approved)
              (rw in_review refl) (rw requestor others.1) (omega (arith, current, total)) in
          (λ e. omega (arith, ih.0 e, current, total), λ e. ih.1 (omega (arith, current, total)))
    ])

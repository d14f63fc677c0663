-- ===== src/Moderation/History.antt =====
-- The calls on a case as one type, and the steps that a case may take.
use dev_nepal.Prelude.{◌≡◌, true, false, not, ◌&&◌, Option, some, List, [], ◌∷◌, Text}
use dev_nepal.Accounts.{Actor}
use dev_nepal.Moderation.Data.{
  ReportReason, CaseStatus, ModerationAction, AppealStatus, ModerationCase, Env, Desk, Call,
}
use dev_nepal.Moderation.Enforcement.{provenance_of}
use dev_nepal.Moderation.Cases.{
  decision_target_status, is_working, is_action_taken, is_appealed, is_pending, assign_case,
  record_decision, enable_security_containment,
}
use dev_nepal.Moderation.Hearings.{appeal, resolve_appeal}
use dev_nepal.Moderation.Guards.{applies, enforced}
use dev_nepal.Moderation.Restoration.{matches, restored_form}

pub data Act : Type 0 where
  assign_ : Actor → Act
  decide_ : Actor → ModerationAction → Option ReportReason → Text → Act
  contain_ : Actor → Text → Act
  appeal_ : Actor → Text → Act
  resolve_ : Actor → AppealStatus → Text → Act

unfoldable pub act : Act → Call (Unit {0})
act (assign_ super_admin) = assign_case super_admin
act (decide_ super_admin action reason comment) = record_decision super_admin action reason comment
act (contain_ super_admin reason) = enable_security_containment super_admin reason
act (appeal_ member grounds) = appeal member grounds
act (resolve_ super_admin outcome reason) = resolve_appeal super_admin outcome reason

-- The desk after a history of calls, whatever each returned or raised.
unfoldable pub run : List (Env × Act) → Desk → Desk
run [] s = s
run ((env, c) ∷ cs) s = run cs (act c env s).1

-- The columns that a decision writes, and the reporter.
pub record SameVerdict (c c' : ModerationCase) : Type 0 where
  pub action : c'.action ≡ c.action
  pub provenance : c'.enforcement_provenance ≡ c.enforcement_provenance
  pub reporter : c'.reporter ≡ c.reporter

-- One call on a case and its target.
pub data Step (s s' : Desk) : Type 0 where
  stays : s'.case ≡ s.case → s'.target ≡ s.target → Step s s'
  assigns :
      is_working s.case.status ≡ true
      → s'.case.status ≡ CaseStatus.under_review
      → SameVerdict s.case s'.case
      → s'.case.appeal_status ≡ s.case.appeal_status
      → s'.case.security_containment ≡ s.case.security_containment
      → s'.target ≡ s.target
      → Step s s'
  decides :
      (action : ModerationAction)
      → is_working s.case.status ≡ true
      → applies action s.target ≡ true
      → s'.case.status ≡ decision_target_status action
      → s'.case.action ≡ some action
      → s'.case.enforcement_provenance ≡ provenance_of s.target action
      → s'.case.reporter ≡ s.case.reporter
      → s'.case.appeal_status ≡ s.case.appeal_status
      → s'.case.security_containment ≡ s.case.security_containment
      → s'.target ≡ enforced action s.target
      → Step s s'
  contains :
      s'.case.security_containment ≡ true
      → s'.case.status ≡ s.case.status
      → SameVerdict s.case s'.case
      → s'.case.appeal_status ≡ s.case.appeal_status
      → s'.target ≡ s.target
      → Step s s'
  appeals :
      is_action_taken s.case.status ≡ true
      → s.case.security_containment ≡ false
      → s'.case.status ≡ CaseStatus.appealed
      → s'.case.appeal_status ≡ some AppealStatus.pending
      → SameVerdict s.case s'.case
      → s'.case.security_containment ≡ s.case.security_containment
      → s'.target ≡ s.target
      → Step s s'
  upholds :
      is_appealed s.case.status ≡ true
      → is_pending s.case.appeal_status ≡ true
      → s'.case.status ≡ CaseStatus.action_taken
      → s'.case.appeal_status ≡ some AppealStatus.upheld
      → SameVerdict s.case s'.case
      → s'.case.security_containment ≡ s.case.security_containment
      → s'.target ≡ s.target
      → Step s s'
  overturns :
      is_appealed s.case.status ≡ true
      → is_pending s.case.appeal_status ≡ true
      → not s.case.security_containment && matches s.case.enforcement_provenance s.target ≡ true
      → s'.case.status ≡ CaseStatus.closed_no_action
      → s'.case.appeal_status ≡ some AppealStatus.overturned
      → SameVerdict s.case s'.case
      → s'.case.security_containment ≡ s.case.security_containment
      → s'.target ≡ restored_form s.case.enforcement_provenance s.target
      → Step s s'

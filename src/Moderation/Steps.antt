-- ===== src/Moderation/Steps.antt =====
-- The effect of each call on a case as a step.
use dev_nepal.Prelude.{
  ◌≡◌, refl, sym, ap, inl, inr, true, Option, none, some, List, Text, same_id, Bool-cases, arith,
}
use dev_nepal.Accounts.{Actor}
use dev_nepal.Service.{Reply, returns, raises, resume_with, key_of, Event}
use dev_nepal.Moderation.Data.{
  ReportReason, ModerationAction, AppealStatus, Provenance, Op, ModerationError, Env, Desk, Payload,
  payload_of, record_audit, add_event, lacks_text,
}
use dev_nepal.Moderation.Cases.{
  is_working, is_action_taken, is_appealed, is_pending, is_outcome, assign_case, enact,
  record_decision, enable_security_containment,
}
use dev_nepal.Moderation.Hearings.{appeal, settle_appeal, resolve_appeal, rescue, restored_payload}
use dev_nepal.Moderation.Guards.{require_super_admin-cases, enforce_action-cases}
use dev_nepal.Moderation.Restoration.{restore_enforcement-cases}
use dev_nepal.Moderation.History.{
  Step, stays, assigns, decides, contains, appeals, upholds, overturns, Act, assign_, decide_,
  contain_, appeal_, resolve_, act,
}

pub assign-Step :
    (super_admin : Actor) (env : Env) (s : Desk) → Step s (assign_case super_admin env s).1
unfolding assign_case record_audit add_event
assign-Step super_admin env s = elim (require_super_admin-cases super_admin Op.assign env s) [
  | inr (s', q, (c, t)) ↦ rw q (stays c t)
  | inl (_, q) ↦ elim (Bool-cases (is_working s.case.status)) [
    | inr settled ↦ rw q (simp settled (stays refl refl))
    | inl working ↦ rw q (
        simp working (
          assigns working refl (record { action = refl; provenance = refl; reporter = refl }) refl
            refl refl))
  ]
]

pub contain-Step :
    (super_admin : Actor) (reason : Text) (env : Env) (s : Desk)
    → Step s (enable_security_containment super_admin reason env s).1
unfolding enable_security_containment record_audit add_event
contain-Step super_admin reason env s =
    elim (require_super_admin-cases super_admin Op.contain env s) [
      | inr (s', q, (c, t)) ↦ rw q (stays c t)
      | inl (_, q) ↦ elim (Bool-cases (lacks_text reason)) [
        | inl blank ↦ rw q (simp blank (stays refl refl))
        | inr given ↦ rw q (
            simp given (
              contains refl refl (record { action = refl; provenance = refl; reporter = refl }) refl
                refl))
      ]
    ]

pub appeal-Step :
    (member : Actor) (grounds : Text) (env : Env) (s : Desk)
    → Step s (appeal member grounds env s).1
unfolding appeal record_audit add_event
appeal-Step member grounds env s = elim (Bool-cases (lacks_text grounds)) [
  | inl blank ↦ simp blank (stays refl refl)
  | inr given ↦ elim (Bool-cases s.case.security_containment) [
    | inl contained ↦ simp (given, contained) (stays refl refl)
    | inr free ↦ elim (Bool-cases (is_action_taken s.case.status)) [
      | inr other ↦ simp (given, free, other) (stays refl refl)
      | inl actioned ↦ elim (Bool-cases (same_id s.case.reporter (key_of member))) [
        | inr stranger ↦ simp (given, free, actioned, stranger) (stays refl refl)
        | inl own ↦ elim (Bool-cases (is_pending s.case.appeal_status)) [
          | inl again ↦ simp (given, free, actioned, own, again) (stays refl refl)
          | inr first ↦
              simp (given, free, actioned, own, first)
                (appeals actioned free refl refl
                  (record { action = refl; provenance = refl; reporter = refl }) (sym free) refl)
        ]
      ]
    ]
  ]
]

-- The trail is no part of a step.
retrail :
    (s s' : Desk) (audit : List (Event Op Payload))
    → Step s s'
    → Step s (record s' { audit = audit })
retrail s s' audit (stays c t) = stays c t
retrail s s' audit (assigns w a v p c t) = assigns w a v p c t
retrail s s' audit (decides action w m a b p r d c t) = decides action w m a b p r d c t
retrail s s' audit (contains c a v p t) = contains c a v p t
retrail s s' audit (appeals w f a p v c t) = appeals w f a p v c t
retrail s s' audit (upholds w q a p v c t) = upholds w q a p v c t
retrail s s' audit (overturns w q m a p v c t) = overturns w q m a p v c t

-- A call, and the trail that is written when it returns.
finish :
    (actor : Actor) (op : Op) (before : Payload) (after : Desk → Payload) (env : Env) (s : Desk)
    (r : Reply ModerationError (Unit {0}) × Desk)
    → Step s r.1
    → Step s
        (resume_with (λ _. λ env'. λ s'. record_audit actor op before (after s') env' s') env r).1
unfolding record_audit
finish actor op before after env s (returns a, s') step = retrail s s' _ step
finish actor op before after env s (raises e, s') step = step

-- The transactions, which either write everything or leave the desk.
enact-cases :
    (super_admin : Actor) (action : ModerationAction) (reason : ReportReason) (comment : Text)
    (env : Env) (s : Desk)
    → is_working s.case.status ≡ true
    → Step s (enact super_admin action reason comment env s).1
unfolding enact add_event
enact-cases super_admin action reason comment env s working =
    elim (enforce_action-cases super_admin action env s) [
      | inr (_, (e, q)) ↦ rw q (stays refl refl)
      | inl (may, (s', (q, c, t))) ↦ rw q (
          decides action working may refl refl refl (ap (λ d. d.reporter) c)
            (ap (λ d. d.appeal_status) c) (ap (λ d. d.security_containment) c) t)
    ]

pub decide-Step :
    (super_admin : Actor) (action : ModerationAction) (reason : Option ReportReason)
    (comment : Text) (env : Env) (s : Desk)
    → Step s (record_decision super_admin action reason comment env s).1
unfolding record_decision record_audit
decide-Step super_admin verdict none comment env s =
    elim (require_super_admin-cases super_admin Op.decide env s) [
      | inr (s', q, (c, t)) ↦ rw q (stays c t)
      | inl (_, q) ↦ rw q (stays refl refl)
    ]
decide-Step super_admin verdict (some reason) comment env s =
    elim (require_super_admin-cases super_admin Op.decide env s) [
      | inr (s', q, (c, t)) ↦ rw q (stays c t)
      | inl (_, q) ↦ elim (Bool-cases (is_working s.case.status)) [
        | inr settled ↦ rw q (simp settled (stays refl refl))
        | inl working ↦ rw q (
            simp working (
              finish super_admin Op.decide (payload_of s.case) (λ s'. payload_of s'.case) env s
                (enact super_admin verdict reason comment env s)
                (enact-cases super_admin verdict reason comment env s working)))
      ]
    ]

settle_appeal-Step :
    (super_admin : Actor) (outcome : AppealStatus) (reason : Text) (env : Env) (s : Desk)
    → is_outcome outcome ≡ true
    → is_appealed s.case.status ≡ true
    → is_pending s.case.appeal_status ≡ true
    → Step s (settle_appeal super_admin outcome reason env s).1
unfolding settle_appeal add_event
settle_appeal-Step super_admin AppealStatus.pending reason env s h a p = absurd (ground (arith, h))
settle_appeal-Step super_admin AppealStatus.upheld reason env s h a p =
    upholds a p refl refl (record { action = refl; provenance = refl; reporter = refl }) refl refl
settle_appeal-Step super_admin AppealStatus.overturned reason env s h a p =
    elim (restore_enforcement-cases super_admin env s) [
      | inr (_, (e, q)) ↦ rw q (stays refl refl)
      | inl (may, (s', (q, c, t))) ↦ rw q (
          overturns a p may refl refl
            (record {
              action = ap (λ d. d.action) c;
              provenance = ap (λ d. d.enforcement_provenance) c;
              reporter = ap (λ d. d.reporter) c;
            })
            (ap (λ d. d.security_containment) c) t)
    ]

rescued-Step :
    (super_admin : Actor) (env : Env) (s : Desk) (r : Reply ModerationError (Unit {0}) × Desk)
    → Step s r.1
    → Step s (rescue super_admin r env).1
rescued-Step super_admin env s (returns a, s') step = step
rescued-Step super_admin env s (raises ModerationError.appeal_restoration, s') step =
    retrail s s' _ step
rescued-Step super_admin env s (raises ModerationError.invalid_report_reason, s') step = step
rescued-Step super_admin env s (raises ModerationError.invalid_report_target, s') step = step
rescued-Step super_admin env s (raises ModerationError.authorization, s') step = step
rescued-Step super_admin env s (raises ModerationError.decision_refused, s') step = step
rescued-Step super_admin env s (raises ModerationError.appeal_refused, s') step = step
rescued-Step super_admin env s (raises ModerationError.appeal_ownership, s') step = step
rescued-Step super_admin env s (raises ModerationError.security_containment, s') step = step
rescued-Step super_admin env s (raises ModerationError.export_purpose, s') step = step
rescued-Step super_admin env s (raises ModerationError.export_rate_limit, s') step = step
rescued-Step super_admin env s (raises ModerationError.blog_transition, s') step = step

pub resolve-Step :
    (super_admin : Actor) (outcome : AppealStatus) (reason : Text) (env : Env) (s : Desk)
    → Step s (resolve_appeal super_admin outcome reason env s).1
unfolding resolve_appeal
resolve-Step super_admin outcome reason env s =
    elim (require_super_admin-cases super_admin Op.appeal_resolved env s) [
      | inr (s', q, (c, t)) ↦ rw q (stays c t)
      | inl (_, q) ↦ elim (Bool-cases (is_outcome outcome)) [
        | inr other ↦ rw q (simp other (stays refl refl))
        | inl known ↦ elim (Bool-cases (lacks_text reason)) [
          | inl blank ↦ rw q (simp (known, blank) (stays refl refl))
          | inr given ↦ elim (Bool-cases (is_appealed s.case.status)) [
            | inr free ↦ rw q (simp (known, given, free) (stays refl refl))
            | inl open_appeal ↦ elim (Bool-cases (is_pending s.case.appeal_status)) [
              | inr done ↦ rw q (simp (known, given, open_appeal, done) (stays refl refl))
              | inl waiting ↦ rw q (
                  simp (known, given, open_appeal, waiting)
                    (finish super_admin Op.appeal_resolved
                      (Payload.appeal_payload s.case.status s.case.appeal_status Provenance.nothing)
                      (λ s'. restored_payload outcome s'.case) env s
                      (rescue super_admin (settle_appeal super_admin outcome reason env s) env)
                      (rescued-Step super_admin env s
                        (settle_appeal super_admin outcome reason env s)
                        (settle_appeal-Step super_admin outcome reason env s known open_appeal
                          waiting))))
            ]
          ]
        ]
      ]
    ]

-- Whatever call is made on a case, by whom, and whether it returns or raises: it leaves the case and
-- its target, or takes one of the steps of the diagram, each with what it requires and writes. A
-- case that is new, under review or escalated is assigned, or decided with an action that applies to
-- the target, which is then as the action leaves it. A case on which action was taken is appealed
-- while it has no security containment; a pending appeal is upheld, which leaves the target, or is
-- overturned, if the target is as the decision left it, and the target has the state before the
-- decision again. Containment is set on a case in any status.
pub act-Step : (c : Act) (env : Env) (s : Desk) → Step s (act c env s).1
unfolding act
act-Step (assign_ super_admin) env s = assign-Step super_admin env s
act-Step (decide_ super_admin action reason comment) env s =
    decide-Step super_admin action reason comment env s
act-Step (contain_ super_admin reason) env s = contain-Step super_admin reason env s
act-Step (appeal_ member grounds) env s = appeal-Step member grounds env s
act-Step (resolve_ super_admin outcome reason) env s = resolve-Step super_admin outcome reason env s

-- ===== src/Moderation/Resolution.antt =====
-- Decisions, appeals and resolutions that take effect.
use dev_nepal.Prelude.{◌≡◌, refl, ap, inl, inr, true, false, not, ◌&&◌, some, Text, same_id, arith}
use dev_nepal.Accounts.{Actor}
use dev_nepal.Service.{returns, key_of}
use dev_nepal.Moderation.Data.{
  ReportReason, CaseStatus, ModerationAction, AppealStatus, Op, Env, Desk, record_audit, add_event,
  lacks_text,
}
use dev_nepal.Moderation.Enforcement.{provenance_of}
use dev_nepal.Moderation.Cases.{
  decision_target_status, is_working, is_action_taken, is_appealed, is_pending, enact,
  record_decision,
}
use dev_nepal.Moderation.Hearings.{appeal, settle_appeal, resolve_appeal}
use dev_nepal.Moderation.Guards.{
  may_moderate, require_super_admin-returns, enforce_action-cases, applies, enforced,
}
use dev_nepal.Moderation.Restoration.{
  restore_enforcement-cases, enforced-matches, matches, restored_form,
}

-- What a decision that takes effect writes.
pub record HasDecided (action : ModerationAction) (s s' : Desk) : Type 0 where
  pub status : s'.case.status ≡ decision_target_status action
  pub provenance : s'.case.enforcement_provenance ≡ provenance_of s.target action
  pub reporter : s'.case.reporter ≡ s.case.reporter
  pub appeal : s'.case.appeal_status ≡ s.case.appeal_status
  pub contained : s'.case.security_containment ≡ s.case.security_containment
  pub target : s'.target ≡ enforced action s.target

enact-HasDecided :
    (super_admin : Actor) (action : ModerationAction) (reason : ReportReason) (comment : Text)
    (env : Env) (s : Desk)
    → applies action s.target ≡ true
    → (s' : Desk) × ((enact super_admin action reason comment env s ≡ (returns tt, s'))
        × HasDecided action s s')
unfolding enact add_event
enact-HasDecided super_admin action reason comment env s may =
    elim (enforce_action-cases super_admin action env s) [
      | inr (out, _) ↦ absurd (ground (arith, rw may at out))
      | inl (_, (s', (q, c, t))) ↦ rw q (
        _,
        (
          refl,
          record {
            status = refl;
            provenance = refl;
            reporter = ap (λ d. d.reporter) c;
            appeal = ap (λ d. d.appeal_status) c;
            contained = ap (λ d. d.security_containment) c;
            target = t;
          },
        ),
      )
    ]

pub decision-HasDecided :
    (super_admin : Actor) (action : ModerationAction) (reason : ReportReason) (comment : Text)
    (env : Env) (s : Desk)
    → may_moderate env super_admin ≡ true
    → is_working s.case.status ≡ true
    → applies action s.target ≡ true
    → (s' : Desk) × ((record_decision super_admin action (some reason) comment env s
          ≡ (returns tt, s'))
        × HasDecided action s s')
unfolding record_decision record_audit
decision-HasDecided super_admin action reason comment env s moderator working may =
    let (s', (q, d)) = enact-HasDecided super_admin action reason comment env s may in
    rw (require_super_admin-returns super_admin Op.decide env s moderator) (
      simp (working, q)
        (
          _,
          (
            refl,
            record {
              status = d.status;
              provenance = d.provenance;
              reporter = d.reporter;
              appeal = d.appeal;
              contained = d.contained;
              target = d.target;
            },
          ),
        ))

-- What an appeal that is filed writes.
pub record HasAppealed (s s' : Desk) : Type 0 where
  pub status : s'.case.status ≡ CaseStatus.appealed
  pub appeal : s'.case.appeal_status ≡ some AppealStatus.pending
  pub provenance : s'.case.enforcement_provenance ≡ s.case.enforcement_provenance
  pub contained : s'.case.security_containment ≡ false
  pub target : s'.target ≡ s.target

pub appeal-HasAppealed :
    (member : Actor) (grounds : Text) (env : Env) (s : Desk)
    → lacks_text grounds ≡ false
    → s.case.security_containment ≡ false
    → is_action_taken s.case.status ≡ true
    → same_id s.case.reporter (key_of member) ≡ true
    → is_pending s.case.appeal_status ≡ false
    → (s' : Desk) × ((appeal member grounds env s ≡ (returns tt, s')) × HasAppealed s s')
unfolding appeal record_audit add_event
appeal-HasAppealed member grounds env s given free actioned own first =
    simp (given, free, actioned, own, first)
      (
        _,
        (
          refl,
          record {
            status = refl;
            appeal = refl;
            provenance = refl;
            contained = refl;
            target = refl;
          },
        ),
      )

-- A resolution that takes effect.
settle-overturned :
    (super_admin : Actor) (reason : Text) (env : Env) (s : Desk)
    → not s.case.security_containment && matches s.case.enforcement_provenance s.target ≡ true
    → (s' : Desk) × ((settle_appeal super_admin AppealStatus.overturned reason env s
          ≡ (returns tt, s'))
        × (s'.case.status ≡ CaseStatus.closed_no_action)
        × (s'.target ≡ restored_form s.case.enforcement_provenance s.target))
unfolding settle_appeal add_event
settle-overturned super_admin reason env s may =
    elim (restore_enforcement-cases super_admin env s) [
      | inr (out, _) ↦ absurd (ground (arith, rw may at out))
      | inl (_, (s', (q, c, t))) ↦ rw q (_, (refl, refl, t))
    ]

-- A pending appeal, a Super Admin with a verified session, and a reason.
abbrev pub MayResolve : Actor → Text → Env → Desk → Type 0
MayResolve super_admin reason env s =
    (may_moderate env super_admin ≡ true)
    × (lacks_text reason ≡ false)
    × (is_appealed s.case.status ≡ true)
    × (is_pending s.case.appeal_status ≡ true)

pub resolve-overturned :
    (super_admin : Actor) (reason : Text) (env : Env) (s : Desk)
    → MayResolve super_admin reason env s
    → not s.case.security_containment && matches s.case.enforcement_provenance s.target ≡ true
    → (s' : Desk) × ((resolve_appeal super_admin AppealStatus.overturned reason env s
          ≡ (returns tt, s'))
        × (s'.case.status ≡ CaseStatus.closed_no_action)
        × (s'.target ≡ restored_form s.case.enforcement_provenance s.target))
unfolding resolve_appeal record_audit
resolve-overturned super_admin reason env s (moderator, given, appealed_, pending_) may =
    let (s', (q, c, t)) = settle-overturned super_admin reason env s may in
    rw (require_super_admin-returns super_admin Op.appeal_resolved env s moderator)
      (simp (given, appealed_, pending_, q) (_, (refl, c, t)))

pub applied-restores :
    (action : ModerationAction) (s s' : Desk)
    → applies action s.target ≡ true
    → s'.case.enforcement_provenance ≡ provenance_of s.target action
    → s'.case.security_containment ≡ false
    → s'.target ≡ enforced action s.target
    → (not s'.case.security_containment && matches s'.case.enforcement_provenance s'.target ≡ true)
      × (restored_form s'.case.enforcement_provenance s'.target ≡ s.target)
applied-restores action s s' may provenance free target =
    let (same, back) = enforced-matches action s.target may in
    (rw (free, provenance, target) same, rw (provenance, target) back)

-- ===== src/Contributions/Submission/Tests.antt =====
-- The theorem about submissions at a concrete input.
use dev_nepal.Prelude.{◌≡◌, refl, true, false, ◌||◌, some, [], ◌∷◌, any, text, is_blank, strip}
use dev_nepal.Accounts.{User}
use dev_nepal.Service.{returns}
use dev_nepal.Projects.Enums.{ProjectStatus, ContributionMode}
use dev_nepal.Contributions.Data.{EvidenceScanStatus}
use dev_nepal.Contributions.Submission.{
  Upload, Evidence, Site, Env, candidate_row, submit_evidence, can_submit_evidence,
  validate_evidence_file, safe_evidence_filename, expected_content, is_executable,
  takes_direct_work, is_accepted_application,
}
use dev_nepal.Contributions.Submission.Laws.{IsFiled, submit_evidence_requires}

abbrev env : Env
env = record {
  limit = some 100;
  get_valid_filename = λ name. some name;
  suffix = λ name. text ".png";
}

abbrev member : User
member = record { pk = 3; is_active = true; is_superuser = false; otp_verified = false }

abbrev site : Site
site = record {
  status = ProjectStatus.open_for_contribution;
  contribution_mode = ContributionMode.open_direct;
  applications = [];
}

abbrev screenshot : Upload
screenshot = record {
  name = text "work/shot.png";
  bytes = some (137 ∷ 80 ∷ 78 ∷ 71 ∷ 13 ∷ 10 ∷ 26 ∷ 10 ∷ 0 ∷ []);
}

abbrev evidence : Evidence
evidence = record {
  title = text "Fix";
  contribution_type = some (record { is_contribution_type = true; is_active = true });
  evidence_file = some screenshot;
}

name_is_safe : safe_evidence_filename env (text "a\\b/c..d.png") ≡ some (text "c.d.png")
unfolding safe_evidence_filename
name_is_safe = refl

evidence_is_filed :
    submit_evidence env (some member) site evidence
    ≡ returns (candidate_row member true 9 EvidenceScanStatus.pending)
unfolding submit_evidence can_submit_evidence validate_evidence_file safe_evidence_filename
    expected_content is_executable is_blank strip
evidence_is_filed = refl

submit_evidence_requires_example :
    (user : User) × ((some member ≡ some user)
      × (user.is_active ≡ true)
      × (site.status ≡ ProjectStatus.open_for_contribution)
      × (takes_direct_work ContributionMode.open_direct || any (is_accepted_application user.pk) []
          ≡ true)
      × IsFiled env user (some screenshot) (candidate_row member true 9 EvidenceScanStatus.pending))
submit_evidence_requires_example =
    submit_evidence_requires env (some member) site evidence
      (candidate_row member true 9 EvidenceScanStatus.pending) evidence_is_filed

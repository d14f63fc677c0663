-- ===== src/Contributions/Submission/Laws.antt =====
-- What a submission that is filed shows of its member, its project and its file.
use dev_nepal.Prelude.{
  ℕ, zero, suc, ◌≤◌, ◌≡◌, refl, sym, ap, ◌⊎◌, inl, inr, true, false, ◌||◌, Option, none, some, List,
  any, length, take, is_nil, is_blank, ◌==◌, Bool-cases, Option-cases, arith,
}
use dev_nepal.Accounts.{User, Actor}
use dev_nepal.Service.{Reply, returns, raises}
use dev_nepal.Projects.Enums.{ProjectStatus}
use dev_nepal.Contributions.Data.{VerificationStatus, EvidenceScanStatus, ContributionRecord}
use dev_nepal.Contributions.Verification.{lacks_scan}
use dev_nepal.Contributions.Submission.{
  SubmissionError, ContentType, Upload, ValidatedEvidenceFile, Evidence, Site, Env, starts_with,
  is_executable, expected_content, exceeds, inspect, inspect_as, validate_evidence_file,
  takes_direct_work, is_accepted_application, can_submit_evidence, submit_evidence,
  safe_evidence_filename, file_evidence, candidate_row, is_approved_term,
}

-- Bytes that are not empty, within the limit, not executable, and of the size that is returned.
abbrev pub IsInspected : Env → List ℕ → ℕ → Type 0
IsInspected env bytes size =
    (size ≡ length bytes)
    × (1 ≤ length bytes)
    × ((limit : ℕ) × (env.limit ≡ some limit) × (length bytes ≤ limit))
    × (is_executable (take 32 bytes) ≡ false)

limit-cases :
    (limit : Option ℕ) (size : ℕ)
    → exceeds limit size ≡ false
    → (n : ℕ) × (limit ≡ some n) × (size ≤ n)
limit-cases none size h = absurd (ground (arith, h))
limit-cases (some zero) size h = absurd (ground (arith, h))
limit-cases (some (suc n)) size h = (suc n, refl, ground (arith, h))

inspect-IsInspected :
    (env : Env) (expected : ContentType × List ℕ) (bytes : List ℕ) (file : ValidatedEvidenceFile)
    → inspect env expected (some bytes) ≡ returns file
    → IsInspected env bytes file.size_bytes
inspect-IsInspected env (content_type, signature) bytes file h =
    elim (Bool-cases (length bytes == 0)) [
      | inl empty ↦ absurd (ground (arith, rw empty at h))
      | inr full ↦ elim (Bool-cases (exceeds env.limit (length bytes))) [
        | inl large ↦ absurd (ground (arith, rw (full, large) at h))
        | inr small ↦ elim (Bool-cases (is_executable (take 32 bytes))) [
          | inl code ↦ absurd (ground (arith, rw (full, small, code) at h))
          | inr plain ↦ elim (Bool-cases (starts_with signature (take 32 bytes))) [
            | inr other ↦ absurd (ground (arith, rw (full, small, plain, other) at h))
            | inl signed ↦ (
              ground (arith, rw (full, small, plain, signed) at h),
              ground (arith, full),
              limit-cases env.limit (length bytes) small,
              plain,
            )
          ]
        ]
      ]
    ]

-- The file that is attached.
abbrev pub IsChecked : Env → Upload → ℕ → Type 0
IsChecked env upload size =
    (bytes : List ℕ) × ((upload.bytes ≡ some bytes) × IsInspected env bytes size)

inspect_as-IsChecked :
    (env : Env) (expected : Option (ContentType × List ℕ)) (upload : Upload)
    (file : ValidatedEvidenceFile)
    → inspect_as env expected upload.bytes ≡ returns file
    → IsChecked env upload file.size_bytes
inspect_as-IsChecked env none upload file h = absurd (ground (arith, h))
inspect_as-IsChecked env (some expected) upload file h = elim (Option-cases upload.bytes) [
  | inl unreadable ↦ absurd (ground (arith, rw unreadable at h))
  | inr (bytes, e) ↦ (bytes, (e, inspect-IsInspected env expected bytes file (rw e at h)))
]

validate-IsChecked :
    (env : Env) (upload : Upload) (file : ValidatedEvidenceFile)
    → validate_evidence_file env upload ≡ returns file
    → IsChecked env upload file.size_bytes
unfolding validate_evidence_file
validate-IsChecked env upload file h = elim (Bool-cases (is_nil upload.name)) [
  | inl unnamed ↦ absurd (ground (arith, rw unnamed at h))
  | inr named ↦ elim (Option-cases (safe_evidence_filename env upload.name)) [
    | inl suspicious ↦ absurd (ground (arith, rw (named, suspicious) at h))
    | inr (name, e) ↦
        inspect_as-IsChecked env (expected_content (env.suffix name)) upload file
          (rw (named, e) at h)
  ]
]

-- What is filed.
abbrev pub IsFiled : Env → User → Option Upload → ContributionRecord → Type 0
IsFiled env member file row =
    (row.status ≡ VerificationStatus.candidate)
    × (row.hold_active ≡ false)
    × (row.contributor ≡ some member.pk)
    × ((file ≡ none) × (row.evidence_size_bytes ≡ 0)
        ⊎ ((upload : Upload) × ((file ≡ some upload)
              × IsChecked env upload row.evidence_size_bytes
              × (lacks_scan VerificationStatus.accepted row ≡ true))))

value_or : {A : Type 0} → A → Reply SubmissionError A → A
value_or a (returns b) = b
value_or a (raises _) = a

returned : {A : Type 0} → (a b : A) → Path (Reply SubmissionError A) (returns a) (returns b) → b ≡ a
unfolding value_or
returned a b h = sym (ap (value_or a) h)

Reply-cases :
    {A : Type 0}
    → (r : Reply SubmissionError A)
    → ((a : A) × (r ≡ returns a)) ⊎ ((e : SubmissionError) × (r ≡ raises e))
Reply-cases (returns a) = inl (a, refl)
Reply-cases (raises e) = inr (e, refl)

file_evidence-IsFiled :
    (env : Env) (member : User) (file : Option Upload) (row : ContributionRecord)
    → file_evidence env member file ≡ returns row
    → IsFiled env member file row
file_evidence-IsFiled env member none row h =
    rw (returned (candidate_row member false 0 EvidenceScanStatus.not_applicable) row h)
      (refl, refl, refl, inl (refl, refl))
file_evidence-IsFiled env member (some upload) row h =
    elim (Reply-cases (validate_evidence_file env upload)) [
      | inr (e, q) ↦ absurd (ground (arith, rw q at h))
      | inl (file, q) ↦
          let (bytes, (_, (size, full, _, _))) = validate-IsChecked env upload file q in
          rw
            (returned (candidate_row member true file.size_bytes EvidenceScanStatus.pending) row
              (rw q at h))
            (
              refl,
              refl,
              refl,
              inr (
                upload,
                (refl, validate-IsChecked env upload file q, ground (arith, size, full)),
              ),
            )
    ]

can_submit-site :
    (member : User) (site : Site)
    → can_submit_evidence (some member) site ≡ true
    → (site.status ≡ ProjectStatus.open_for_contribution)
      × (takes_direct_work site.contribution_mode
            || any (is_accepted_application member.pk) site.applications
          ≡ true)
unfolding can_submit_evidence
can_submit-site member site may = (ground arith, ground arith)

-- A member whose evidence `submit_evidence` files is active, and the project is open and takes
-- direct work or has accepted the member's application. The record is a candidate of the member
-- without a hold. It has no file, or a file that could be read, is not empty, is within a limit that
-- is configured and does not begin like a program or a script, of the size that is recorded, and the
-- record cannot be accepted before a scan.
pub submit_evidence_requires :
    (env : Env) (actor : Actor) (site : Site) (evidence : Evidence) (row : ContributionRecord)
    → submit_evidence env actor site evidence ≡ returns row
    → (member : User) × ((actor ≡ some member)
        × (member.is_active ≡ true)
        × (site.status ≡ ProjectStatus.open_for_contribution)
        × (takes_direct_work site.contribution_mode
              || any (is_accepted_application member.pk) site.applications
            ≡ true)
        × IsFiled env member evidence.evidence_file row)
unfolding submit_evidence
submit_evidence_requires env none site evidence row h = absurd (ground (arith, h))
submit_evidence_requires env (some member) site evidence row h =
    elim (Bool-cases member.is_active) [
      | inr gone ↦ absurd (ground (arith, rw gone at h))
      | inl active ↦ elim (Bool-cases (is_blank evidence.title)) [
        | inl blank ↦ absurd (ground (arith, rw (active, blank) at h))
        | inr titled ↦ elim (Bool-cases (is_approved_term evidence.contribution_type)) [
          | inr unknown ↦ absurd (ground (arith, rw (active, titled, unknown) at h))
          | inl approved ↦ elim (Bool-cases (can_submit_evidence (some member) site)) [
            | inr refused ↦ absurd (ground (arith, simp (active, titled, approved, refused) at h))
            | inl may ↦
                let (is_open, takes) = can_submit-site member site may in
                (
                  member,
                  (
                    refl,
                    active,
                    is_open,
                    takes,
                    file_evidence-IsFiled env member evidence.evidence_file row
                        (simp (active, titled, approved, may) at h),
                  ),
                )
          ]
        ]
      ]
    ]

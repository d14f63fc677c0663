-- ===== src/Contributions/Consistency.antt =====
-- The constraints of the table over histories of calls.
use dev_nepal.Prelude.{
  ℕ, ◌≡◌, refl, sym, ◌∙◌, inl, inr, ◌≢◌, true, false, not, is_some, is_nil, some, none, List, [],
  ◌∷◌, Text, arith,
}
use dev_nepal.Accounts.{Actor, is_super_admin}
use dev_nepal.Service.{key_of}
use dev_nepal.Contributions.Data.{ContributionRecord, Env, Desk, is_unscored}
use dev_nepal.Contributions.Verification.{verify, revoke, record_evidence_scan_result}
use dev_nepal.Contributions.Holds.{hold, release, respond}
use dev_nepal.Contributions.Guards.{SameHold}
use dev_nepal.Contributions.Steps.{
  verify-row, revoke-row, scan-row, place_on_hold-row, release_hold-row, respond_to_hold-row,
}
use dev_nepal.Contributions.History.{
  Act, verify_, revoke_, place_on_hold_, release_hold_, respond_to_hold_, scan_, act, run,
}

-- A record that is held keeps the unscored status at which the hold was placed.
pub record IsHeld (r : ContributionRecord) : Type 0 where
  pub from : r.held_from_status ≡ some r.status
  pub unscored : is_unscored r.status ≡ true
  pub by : is_some r.held_by ≡ true
  pub at : is_some r.held_at ≡ true
  pub reason : r.hold_reason ≢ []

-- `contrib_hold_metadata_consistent` and `contrib_hold_response_consistent`
pub record IsConsistent (r : ContributionRecord) : Type 0 where
  pub held : r.hold_active ≡ true → IsHeld r
  pub responds : is_some r.hold_responded_at ≡ not (is_nil r.hold_response)

is_super_admin-key : (actor : Actor) → is_super_admin actor ≡ true → is_some (key_of actor) ≡ true
unfolding is_super_admin
is_super_admin-key none h = absurd (ground (arith, h))
is_super_admin-key (some user) h = refl

-- A record whose hold is not touched, with a status that moves only outside a hold.
kept-IsHeld :
    (r r' : ContributionRecord) → SameHold r r' → (r'.status ≡ r.status) → IsHeld r → IsHeld r'
kept-IsHeld r r' same stays old = record {
  from = rw (same.from, stays) old.from;
  unscored = rw stays old.unscored;
  by = rw same.by old.by;
  at = rw same.at old.at;
  reason = rw same.reason old.reason;
}

kept-IsConsistent :
    (r r' : ContributionRecord)
    → SameHold r r'
    → (r.hold_active ≡ true → r'.status ≡ r.status)
    → IsConsistent r
    → IsConsistent r'
kept-IsConsistent r r' same stays c = record {
  held =
      λ h. let before = sym same.active ∙ h in kept-IsHeld r r' same (stays before) (c.held before);
  responds = rw (same.responded, same.response) c.responds;
}

free-IsConsistent :
    (r : ContributionRecord)
    → r.hold_active ≡ false
    → is_some r.hold_responded_at ≡ not (is_nil r.hold_response)
    → IsConsistent r
free-IsConsistent r free responds = record {
  held = λ h. absurd (ground (arith, free, h));
  responds = responds;
}

hold-IsConsistent :
    (pmo : Actor) (reason : Text) (now : ℕ) (r : ContributionRecord)
    → reason ≢ []
    → is_super_admin pmo ≡ true
    → is_unscored r.status ≡ true
    → IsConsistent (hold pmo reason now r)
hold-IsConsistent pmo reason now r given admin unscored = record {
  held = λ _. record {
    from = refl;
    unscored = unscored;
    by = is_super_admin-key pmo admin;
    at = refl;
    reason = given;
  };
  responds = refl;
}

not-is_nil : (t : Text) → t ≢ [] → true ≡ not (is_nil t)
not-is_nil [] given = absurd (given refl)
not-is_nil (_ ∷ _) given = refl

respond-IsConsistent :
    (text : Text) (now : ℕ) (r : ContributionRecord)
    → text ≢ []
    → IsConsistent r
    → IsConsistent (respond text now r)
respond-IsConsistent text now r given c = record {
  held = λ h.
      let old = c.held h in
      record {
        from = old.from;
        unscored = old.unscored;
        by = old.by;
        at = old.at;
        reason = old.reason;
      };
  responds = not-is_nil text given;
}

act-IsConsistent :
    (c : Act) (env : Env) (s : Desk) → IsConsistent s.row → IsConsistent (act c env s).1.row
unfolding act
act-IsConsistent (verify_ verifier decision reason second) env s c =
    elim (verify-row verifier decision reason second env s) [
      | inl same ↦ rw same c
      | inr ((_, kept), _, free, _, _) ↦
          kept-IsConsistent s.row (verify verifier decision reason second env s).1.row kept
            (λ h. absurd (ground (arith, free, h))) c
    ]
act-IsConsistent (revoke_ super_admin reason) env s c = elim (revoke-row super_admin reason env s) [
  | inl same ↦ rw same c
  | inr (_, before, kept) ↦
      kept-IsConsistent s.row (revoke super_admin reason env s).1.row kept
        (λ h. let old = c.held h in absurd (ground (arith, before, old.unscored))) c
]
act-IsConsistent (place_on_hold_ pmo reason) env s c = elim (place_on_hold-row pmo reason env s) [
  | inl same ↦ rw same c
  | inr (cleaned, (placed, given, admin, _, unscored)) ↦
      rw placed (hold-IsConsistent pmo cleaned env.now s.row given admin unscored)
]
act-IsConsistent (release_hold_ pmo reason) env s c = elim (release_hold-row pmo reason env s) [
  | inl same ↦ rw same c
  | inr (cleaned, released, _) ↦
      rw released (free-IsConsistent (release pmo cleaned env.now s.row) refl c.responds)
]
act-IsConsistent (respond_to_hold_ contributor text) env s c =
    elim (respond_to_hold-row contributor text env s) [
      | inl same ↦ rw same c
      | inr (cleaned, (written, given, _, _, _)) ↦
          rw written (respond-IsConsistent cleaned env.now s.row given c)
    ]
act-IsConsistent (scan_ scan_status) env s c =
    let (stays, same) = scan-row scan_status env s in
    kept-IsConsistent s.row (record_evidence_scan_result scan_status env s).1.row same (λ _. stays)
      c

-- Whatever calls are made on a record, by whom and in what order, whether they return or raise: a
-- record that is held stays at the candidate or pending status at which the hold was placed, with a
-- reason, an author and a date (so no decision is taken and nothing is revoked during a hold), and a
-- response to a hold has text exactly when it has a date. It holds after any history of calls if it
-- holds before. The constraints `contrib_hold_metadata_consistent` and
-- `contrib_hold_response_consistent` of the table are part of it.
pub run-IsConsistent :
    (cs : List (Env × Act)) (s : Desk) → IsConsistent s.row → IsConsistent (run cs s).row
unfolding run
run-IsConsistent [] s c = c
run-IsConsistent ((env, a) ∷ cs) s c =
    run-IsConsistent cs (act a env s).1 (act-IsConsistent a env s c)

-- ===== src/Projects/Edit/Tests.antt =====
-- The theorems about edits at a member's open listing.
use dev_nepal.Prelude.{◌≡◌, refl, ◌≢◌, ◌⊎◌, true, some, List, [], ◌∷◌, text}
use dev_nepal.Projects.Enums.{ProjectStatus, status_in}
use dev_nepal.Projects.Monad.{Store, Env, Operation, FieldName, ok}
use dev_nepal.Projects.Access.{require_publisher}
use dev_nepal.Projects.Edit.{Change, apply_edit, changed_material, editable_states}
use dev_nepal.Projects.Edit.Laws.{InPlace, SentToReview, apply_edit_lem}
use dev_nepal.Projects.Edit.Stranding.{apply_edit_strands}
use dev_nepal.Projects.Command.{Command}
use dev_nepal.Projects.Command.Numbering.{run}
use dev_nepal.Projects.Sample.{admin, member, env, listing}

abbrev open_listing : Store
open_listing = record listing {
  project = record listing.project { status = ProjectStatus.open_for_contribution };
}

abbrev changes : List Change
changes = Change.title_en (text "New") ∷ Change.description_md (text "More") ∷ []

owner_edits :
    require_publisher (some member) Operation.edit env open_listing ≡ (ok tt, open_listing)
unfolding require_publisher
owner_edits = refl

description_changes :
    changed_material env changes open_listing.project ≡ FieldName.description_md ∷ []
unfolding changed_material
description_changes = refl

abbrev history : List (Env × Command)
history = (env, Command.archive (some admin) []) ∷ (env, Command.resume (some member)) ∷ []

apply_edit_strands_example :
    let (r, s') = apply_edit (some member) changes env open_listing in
    (r ≡ ok tt) × ((run history s').project.status ≡ ProjectStatus.in_review)
unfolding changed_material
apply_edit_strands_example =
    apply_edit_strands (some member) changes env open_listing history owner_edits refl refl
      (λ e. cc) refl

apply_edit_lem_example :
    let (r, s') = apply_edit (some member) changes env open_listing in
    let changed = changed_material env changes open_listing.project in
    (r ≡ ok tt)
      × (status_in open_listing.project.status editable_states ≡ true)
      × (InPlace changed open_listing s' ⊎ SentToReview changed open_listing s')
    ⊎ ((r ≢ ok tt) × (s'.project ≡ open_listing.project) × (s'.versions ≡ open_listing.versions))
apply_edit_lem_example = apply_edit_lem (some member) changes env open_listing

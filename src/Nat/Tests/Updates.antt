-- ===== src/Nat/Tests/Updates.antt =====
-- An update and a release of an assignment at concrete inputs.
use nstance.Base.{String, ◌≡◌, ◌≢◌, refl, true, none, ok, [], ◌∷◌}
use nstance.Base.Dict.{get, put}
use nstance.Nat.{Assignment, Assignments}
use nstance.Nat.Changes.{update_one, release, new_assignment}
use nstance.Nat.Owners.{OneOwner}
use nstance.Nat.Owners.Updates.{KeepsOwnership, update_one-OneOwner, release-OneOwner}
use nstance.Nat.Tests.{held, held-OneOwner, request, first_address}

abbrev route : Assignment → Assignment
route a = record a { routed = true }

route-KeepsOwnership : KeepsOwnership route
route-KeepsOwnership = record {
  same_id = λ a. refl;
  same_address = λ a. refl;
  same_replaces = λ a. refl;
  same_retiring = λ a. refl;
}

update_one-OneOwner_example :
    OneOwner (("nat-0", route (new_assignment (request "nat-0") first_address)) ∷ [])
unfolding update_one get put
update_one-OneOwner_example =
    update_one-OneOwner "nat-0" route held
      (("nat-0", route (new_assignment (request "nat-0") first_address)) ∷ []) route-KeepsOwnership
      held-OneOwner refl

release-OneOwner_example :
    (n : Assignments) × (release "nat-0" held ≡ ok (n, tt))
    × (get n "nat-0" ≡ none)
    × ((k : String) → k ≢ "nat-0" → get n k ≡ get held k)
    × OneOwner n
release-OneOwner_example = release-OneOwner "nat-0" held held-OneOwner

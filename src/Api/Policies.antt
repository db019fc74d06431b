-- ===== src/Api/Policies.antt =====
-- backend/src/modules/policy/policy.controller.ts; the PDF of an upload is its text here.
use smart_parking_management.Prelude.{ℕ, Option, List}
use smart_parking_management.Schema.{Text}
use smart_parking_management.Schema.Status.{Role}
use smart_parking_management.Action.{Action}
use smart_parking_management.Environment.{AuthenticatedUser}
use smart_parking_management.Policy.{upload, find_documents, remove_document}
use smart_parking_management.Api.{Outside, done, queried, admin_only}

pub data PolicyRequest : Type 0 where
  post_policy : Text → Text → Text → PolicyRequest
  get_policies : PolicyRequest
  delete_policy : ℕ → PolicyRequest

abbrev pub policy_roles : PolicyRequest → Option (List Role)
policy_roles _ = admin_only

abbrev pub policy_handler : Outside → PolicyRequest → AuthenticatedUser → Action (Unit {0})
policy_handler o (PolicyRequest.post_policy text title filename) user =
    done (upload text title filename user.user_id o.new_id)
policy_handler o PolicyRequest.get_policies user = queried find_documents
policy_handler o (PolicyRequest.delete_policy id) user = remove_document id

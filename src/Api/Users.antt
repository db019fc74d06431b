-- ===== src/Api/Users.antt =====
-- backend/src/modules/users/users.controller.ts
use smart_parking_management.Prelude.{ℕ, Option, none, List}
use smart_parking_management.Schema.Status.{Role}
use smart_parking_management.Action.{Action}
use smart_parking_management.Environment.{AuthenticatedUser}
use smart_parking_management.Users.{
  UpdateProfileDto, ChangePasswordDto, SavePaymentMethodDto, CreateStaffDto, find_all_users,
  find_one_user, update_profile, admin_update_profile, change_password, save_payment_method,
  get_payment_method, create_staff, update_staff_role, block, unblock,
}
use smart_parking_management.Users.Deletion.{remove_manager, remove_self}
use smart_parking_management.Api.{Outside, done, admin_only}

pub data UserRequest : Type 0 where
  get_users : UserRequest
  get_me : UserRequest
  patch_me : UpdateProfileDto → UserRequest
  delete_me : UserRequest
  patch_password : ChangePasswordDto → UserRequest
  put_payment_method : SavePaymentMethodDto → UserRequest
  get_my_payment_method : UserRequest
  post_staff : CreateStaffDto → UserRequest
  delete_manager : ℕ → UserRequest
  get_user : ℕ → UserRequest
  patch_user : ℕ → UpdateProfileDto → UserRequest
  patch_role : ℕ → Role → UserRequest
  patch_block : ℕ → UserRequest
  patch_unblock : ℕ → UserRequest

abbrev pub user_roles : UserRequest → Option (List Role)
user_roles UserRequest.get_me = none
user_roles (UserRequest.patch_me _) = none
user_roles UserRequest.delete_me = none
user_roles (UserRequest.patch_password _) = none
user_roles (UserRequest.put_payment_method _) = none
user_roles UserRequest.get_my_payment_method = none
user_roles _ = admin_only

abbrev pub user_handler : Outside → UserRequest → AuthenticatedUser → Action (Unit {0})
user_handler o UserRequest.get_users user = done find_all_users
user_handler o UserRequest.get_me user = done (find_one_user user.user_id)
user_handler o (UserRequest.patch_me dto) user = done (update_profile user.user_id dto user.role)
user_handler o UserRequest.delete_me user = remove_self user.user_id
user_handler o (UserRequest.patch_password dto) user =
    change_password o.hash o.compare user.user_id dto o.salt
user_handler o (UserRequest.put_payment_method dto) user =
    done (save_payment_method user.user_id dto)
user_handler o UserRequest.get_my_payment_method user = done (get_payment_method user.user_id)
user_handler o (UserRequest.post_staff dto) user =
    done (create_staff o.hash o.compare dto o.new_id o.salt user.user_id)
user_handler o (UserRequest.delete_manager id) user = remove_manager id user.user_id
user_handler o (UserRequest.get_user id) user = done (find_one_user id)
user_handler o (UserRequest.patch_user id dto) user =
    done (admin_update_profile id dto user.user_id)
user_handler o (UserRequest.patch_role id role) user = done (update_staff_role id role user.user_id)
user_handler o (UserRequest.patch_block id) user = done (block id user.user_id)
user_handler o (UserRequest.patch_unblock id) user = done (unblock id user.user_id)

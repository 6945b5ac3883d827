-- ===== src/Schemas/Identity.antt =====
-- app/presentation/schemas/auth.py
use accountant_backend.Prelude.{
  ℕ, Bool, true, false, ◌&&◌, List, [], ◌∷◌, Text, length, leb, ltb, ◌==◌, order_by, ◌||◌,
}
use accountant_backend.Domain.{Uuid, Instant, User}

-- `Field(min_length=lo, max_length=hi)`
abbrev pub has_length : ℕ → ℕ → Text → Bool
has_length lo hi s = leb lo (length s) && leb (length s) hi

-- the order of Python's strings, by code points
unfoldable pub text_le : Text → Text → Bool
text_le [] t = true
text_le (a ∷ s) [] = false
text_le (a ∷ s) (b ∷ t) = ltb a b || a == b && text_le s t

pub record RegisterRequest : Type 0 where
  pub display_name : Text
  pub email : Text
  pub password : Text

abbrev pub is_register_request : RegisterRequest → Bool
is_register_request p = has_length 2 100 p.display_name && has_length 8 128 p.password

pub record LoginRequest : Type 0 where
  pub email : Text
  pub password : Text

abbrev pub is_login_request : LoginRequest → Bool
is_login_request p = has_length 8 128 p.password

pub record UserResponse : Type 0 where
  pub id : Uuid
  pub email : Text
  pub display_name : Text
  pub daily_summary_enabled : Bool
  pub daily_summary_time : ℕ
  pub budget_alerts_enabled : Bool
  pub roles : List Text
  pub permissions : List Text
  pub created_at : Instant

-- `UserResponse.from_domain`
unfoldable pub user_response : User → UserResponse
unfolding order_by text_le
user_response user = record {
  id = user.id;
  email = user.email;
  display_name = user.display_name;
  daily_summary_enabled = user.daily_summary_enabled;
  daily_summary_time = user.daily_summary_time;
  budget_alerts_enabled = user.budget_alerts_enabled;
  roles = order_by text_le user.roles;
  permissions = order_by text_le user.permissions;
  created_at = user.created_at;
}

pub record ResetPasswordRequest : Type 0 where
  pub token : Text
  pub new_password : Text

abbrev pub is_reset_password_request : ResetPasswordRequest → Bool
is_reset_password_request p = has_length 16 512 p.token && has_length 8 128 p.new_password

pub record ChangeEmailRequest : Type 0 where
  pub new_email : Text
  pub current_password : Text

abbrev pub is_change_email_request : ChangeEmailRequest → Bool
is_change_email_request p = has_length 8 128 p.current_password

-- the token of a `ConfirmEmailChangeRequest`
abbrev pub is_confirm_token : Text → Bool
is_confirm_token token = has_length 16 512 token

pub record ChangePasswordRequest : Type 0 where
  pub current_password : Text
  pub new_password : Text

abbrev pub is_change_password_request : ChangePasswordRequest → Bool
is_change_password_request p =
    has_length 8 128 p.current_password && has_length 8 128 p.new_password

pub record UpdateUserSettingsRequest : Type 0 where
  pub display_name : Text
  pub daily_summary_enabled : Bool
  pub daily_summary_time : ℕ
  pub budget_alerts_enabled : Bool

abbrev pub is_update_settings_request : UpdateUserSettingsRequest → Bool
is_update_settings_request p = has_length 2 100 p.display_name

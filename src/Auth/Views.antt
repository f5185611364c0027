-- ===== src/Auth/Views.antt =====
-- The requests and the data of the responses of internal/handler/api/auth.go. The bounds of `binding`
-- tags are checked by ShouldBindJSON.
use weiyeston.Base.{ℕ, Option, ℤ, Text, [], get_or}
use weiyeston.Tenant.{Tenant}

pub record LoginRequest : Type 0 where
  pub username : Text
  pub password : Text

pub record RegisterRequest : Type 0 where
  pub username : Text
  pub password : Text
  pub email : Text
  pub phone : Text
  pub nickname : Text
  pub company : Text

pub record ChangePasswordRequest : Type 0 where
  pub old_password : Text
  pub new_password : Text

pub record ResetPasswordRequest : Type 0 where
  pub phone : Text
  pub code : Text
  pub new_password : Text

pub record UpdateProfileRequest : Type 0 where
  pub nickname : Option Text
  pub email : Option Text
  pub phone : Option Text
  pub company : Option Text
  pub avatar_url : Option Text

pub record UserDto : Type 0 where
  pub id : ℤ
  pub username : Text
  pub nickname : Text
  pub role : Text
  pub avatar_url : Text

pub record ProfileDto : Type 0 where
  pub id : ℤ
  pub username : Text
  pub nickname : Text
  pub email : Text
  pub phone : Text
  pub company : Text
  pub avatar_url : Text
  pub role : Text

-- The tokens of LoginResponse and RefreshResponse, with the lifetime in seconds.
pub record TokenPair : Type 0 where
  pub access_token : Text
  pub refresh_token : Text
  pub expires_in : ℕ

pub data AuthData : Type 0 where
  login_response : TokenPair → UserDto → AuthData
  refresh_response : TokenPair → AuthData
  user_dto : UserDto → AuthData
  profile_dto : ProfileDto → AuthData

abbrev pub to_user_dto : Tenant → UserDto
to_user_dto t = record {
  id = t.id;
  username = t.username;
  nickname = get_or t.nickname [];
  role = t.role;
  avatar_url = get_or t.avatar_url [];
}

-- The DTO of Register leaves the avatar out.
abbrev pub to_new_user_dto : Tenant → UserDto
to_new_user_dto t = record (to_user_dto t) { avatar_url = [] }

abbrev pub to_profile_dto : Tenant → ProfileDto
to_profile_dto t = record {
  id = t.id;
  username = t.username;
  nickname = get_or t.nickname [];
  email = get_or t.email [];
  phone = get_or t.phone [];
  company = get_or t.company [];
  avatar_url = get_or t.avatar_url [];
  role = t.role;
}

-- ===== src/Auth/Walk.antt =====
-- The handlers of internal/handler/api/auth.go, statement by statement, for an invariant of the tenants.
pub mod Session
use weiyeston.Base.{
  Option, none, some, ℤ, Text, text_eq, int_eq, ◌==◌, ◌≡◌, refl, is_some, ℕ, String,
}
use weiyeston.Http.{Env, statement, or_respond, or_fail, or_invalid, require, reject, Bound}
use weiyeston.Http.Keeps.{
  Keeps, On, Preserves, Keeps-or_fail, Keeps-require, Keeps-reject, Keeps->>=, Keeps->>,
  Keeps-statement, Keeps-or_respond, Keeps-or_invalid,
}
use weiyeston.Middleware.{Value, int64, float64, text, other}
use weiyeston.Tenant.{Tenant, TenantTables}
use weiyeston.Tenant.Repo.{
  W, create, get_by_id, get_by_username, get_by_phone, update_password, update_profile, update_live,
  insert_tenant, with_password, with_profile,
}
use weiyeston.Tenant.Keeps.{get_by_id-Keeps, get_by_username-Keeps, get_by_phone-Keeps}
use weiyeston.Auth.{Services, verify_password, hash_password}
use weiyeston.Auth.Views.{
  AuthData, RegisterRequest, ResetPasswordRequest, ChangePasswordRequest, UpdateProfileRequest,
}
use weiyeston.Auth.Handlers.{
  current_user, new_tenant, phone_pattern, preset_code, forgot_password, register, set_password,
  reset_password,
}
use weiyeston.Auth.Profile.{
  is_bad_phone, or_nil, own_user, me, profile, change_profile, change_password,
}

-- What no handler of auth.go changes of a row.
pub record Rank : Type 0 where
  pub id : ℤ
  pub username : Text
  pub role : Text
  pub status : ℤ
  pub vip_level : Text
  pub vip_end_time : Option ℤ
  pub deleted_at : Option ℕ

abbrev pub rank : Tenant → Rank
rank t = record {
  id = t.id;
  username = t.username;
  role = t.role;
  status = t.status;
  vip_level = t.vip_level;
  vip_end_time = t.vip_end_time;
  deleted_at = t.deleted_at;
}

pub record KeptByAuth (J : TenantTables → Type 0) : Type 0 where
  pub inserts :
      (now : ℕ) (req : RegisterRequest) (hash : Text)
      → Preserves J (insert_tenant now (new_tenant req hash))
  pub changes :
      (id : ℤ) (f : Tenant → Tenant)
      → ((t : Tenant) → rank (f t) ≡ rank t)
      → Preserves J (update_live id f)

module _ {C : Type 0} (J : TenantTables → Type 0) where
  abbrev pub L : W C → Type 0
  L = On J

  pub current_user-Keeps : (o : Option Value) → Keeps {S = W C} L (current_user o)
  current_user-Keeps none w h = h
  current_user-Keeps (some (int64 v)) w h = h
  current_user-Keeps (some (float64 v)) w h = h
  current_user-Keeps (some (text v)) w h = h
  current_user-Keeps (some other) w h = h

  module _ (kept : KeptByAuth J) (env : Env) where
    pub change-Keeps :
        (D : Type 0) (id : ℤ) (f : Tenant → Tenant)
        → ((t : Tenant) → rank (f t) ≡ rank t)
        → Keeps {D = D} L (statement env (update_live id f))
    change-Keeps D id f e = Keeps-statement D J env (update_live id f) (kept.changes id f e)

    update_password-Keeps :
        (id : ℤ) (hash : Text) → Keeps {D = AuthData} L (update_password env id hash)
    unfolding update_password
    update_password-Keeps id hash =
        Keeps->>= L (statement env (update_live id (with_password env.now hash))) _
          (change-Keeps AuthData id (with_password env.now hash) λ t. refl) λ rows. λ w h. h

    update_profile-Keeps :
        (id : ℤ) (nickname email phone company avatar_url : Option Text)
        → Keeps {D = AuthData} L (update_profile env id nickname email phone company avatar_url)
    unfolding update_profile
    update_profile-Keeps id nickname email phone company avatar_url =
        Keeps->>= L
          (statement env
            (update_live id (with_profile env.now nickname email phone company avatar_url)))
          _
          (change-Keeps AuthData id (with_profile env.now nickname email phone company avatar_url)
            λ t. refl)
          λ rows. λ w h. h

    module _ (s : Services C) where
      pub forgot_password-Keeps : (body : Bound Text) → Keeps L (forgot_password s env body)
      unfolding forgot_password
      forgot_password-Keeps body =
          Keeps->>= L (or_invalid body _) _ (Keeps-or_invalid L body _) λ phone.
            Keeps->> L (require (phone_pattern phone) _) _ (Keeps-require L (phone_pattern phone) _)
              (Keeps->>= L (or_fail (get_by_phone env phone) _) _
                (Keeps-or_fail L (get_by_phone env phone) _
                  (get_by_phone-Keeps AuthData J env phone))
                λ found. λ w h. h)

      pub register-Keeps :
          (salt : ℕ) (body : Bound RegisterRequest) → Keeps L (register s env salt body)
      unfolding register create
      register-Keeps salt body =
          Keeps->>= L (or_invalid body _) _ (Keeps-or_invalid L body _) λ req.
            Keeps->> L (require (phone_pattern req.phone) _) _
              (Keeps-require L (phone_pattern req.phone) _)
              (Keeps->>= L (or_fail (get_by_username env req.username) _) _
                (Keeps-or_fail L (get_by_username env req.username) _
                  (get_by_username-Keeps AuthData J env req.username))
                λ found.
                  Keeps->> L (reject (is_some found) _) _ (Keeps-reject L (is_some found) _) (
                    Keeps->>= L (or_respond (hash_password s salt req.password) _) _
                      (Keeps-or_respond L (hash_password s salt req.password) _)
                      λ hash.
                        Keeps->>= L
                          (or_fail (statement env (insert_tenant env.now (new_tenant req hash))) _)
                          _
                          (Keeps-or_fail L
                            (statement env (insert_tenant env.now (new_tenant req hash))) _
                            (Keeps-statement AuthData J env
                              (insert_tenant env.now (new_tenant req hash))
                              (kept.inserts env.now req hash)))
                          λ user. λ w h. h))

      set_password-Keeps :
          (salt : ℕ) (id : ℤ) (password : Text) (refusal done : String)
          → Keeps L (set_password s env salt id password refusal done)
      unfolding set_password
      set_password-Keeps salt id password refusal done =
          Keeps->>= L (or_respond (hash_password s salt password) _) _
            (Keeps-or_respond L (hash_password s salt password) _)
            λ hash.
              Keeps->> L (or_fail (update_password env id hash) _) _
                (Keeps-or_fail L (update_password env id hash) _ (update_password-Keeps id hash))
                λ w h. h

      pub reset_password-Keeps :
          (salt : ℕ) (body : Bound ResetPasswordRequest) → Keeps L (reset_password s env salt body)
      unfolding reset_password
      reset_password-Keeps salt body =
          Keeps->>= L (or_invalid body _) _ (Keeps-or_invalid L body _) λ req.
            Keeps->> L (require (phone_pattern req.phone) _) _
              (Keeps-require L (phone_pattern req.phone) _)
              (Keeps->> L (require (req.code == preset_code) _) _
                (Keeps-require L (req.code == preset_code) _)
                (Keeps->>= L (or_fail (get_by_phone env req.phone) _) _
                  (Keeps-or_fail L (get_by_phone env req.phone) _
                    (get_by_phone-Keeps AuthData J env req.phone))
                  λ found.
                    Keeps->>= L (or_respond found _) _ (Keeps-or_respond L found _)
                      λ user. set_password-Keeps salt user.id req.new_password _ _))

      pub change_password-Keeps :
          (salt : ℕ) (current : Option Value) (body : Bound ChangePasswordRequest)
          → Keeps L (change_password env s salt current body)
      unfolding change_password
      change_password-Keeps salt current body =
          Keeps->>= L (or_invalid body _) _ (Keeps-or_invalid L body _) λ req.
            Keeps->>= L (current_user current) _ (current_user-Keeps current) λ id.
              Keeps->>= L (or_fail (get_by_id env id) _) _
                (Keeps-or_fail L (get_by_id env id) _ (get_by_id-Keeps AuthData J env id))
                λ found. Keeps->>= L (or_respond found _) _ (Keeps-or_respond L found _) λ user.
                  Keeps->> L (require (verify_password s user.password_hash req.old_password) _) _
                    (Keeps-require L (verify_password s user.password_hash req.old_password) _)
                    (set_password-Keeps salt id req.new_password _ _)

    own_user-Keeps : (current : Option Value) → Keeps {S = W C} L (own_user env current)
    unfolding own_user
    own_user-Keeps current = Keeps->>= L (current_user current) _ (current_user-Keeps current) λ id.
        Keeps->>= L (or_fail (get_by_id env id) _) _
          (Keeps-or_fail L (get_by_id env id) _ (get_by_id-Keeps AuthData J env id))
          λ found. Keeps-or_respond L found _

    pub me-Keeps : (current : Option Value) → Keeps {S = W C} L (me env current)
    unfolding me
    me-Keeps current =
        Keeps->>= L (own_user env current) _ (own_user-Keeps current) λ user. λ w h. h

    pub profile-Keeps : (current : Option Value) → Keeps {S = W C} L (profile env current)
    unfolding profile
    profile-Keeps current =
        Keeps->>= L (own_user env current) _ (own_user-Keeps current) λ user. λ w h. h

    pub change_profile-Keeps :
        (current : Option Value) (body : Bound UpdateProfileRequest)
        → Keeps {S = W C} L (change_profile env current body)
    unfolding change_profile
    change_profile-Keeps current body =
        Keeps->>= L (or_invalid body _) _ (Keeps-or_invalid L body _) λ req.
          Keeps->>= L (current_user current) _ (current_user-Keeps current) λ id.
            Keeps->> L (reject (is_bad_phone req.phone) _) _
              (Keeps-reject L (is_bad_phone req.phone) _)
              (Keeps->> L
                (or_fail
                  (update_profile env id req.nickname req.email req.phone req.company
                    req.avatar_url)
                  _)
                _
                (Keeps-or_fail L
                  (update_profile env id req.nickname req.email req.phone req.company
                    req.avatar_url)
                  _
                  (update_profile-Keeps id req.nickname req.email req.phone req.company
                    req.avatar_url))
                (Keeps->>= L (get_by_id env id) _ (get_by_id-Keeps AuthData J env id) λ found.
                  Keeps->>= L (or_respond (or_nil found) _) _ (Keeps-or_respond L (or_nil found) _)
                    λ user. λ w h. h))

-- ===== src/Auth/Registered.antt =====
-- Register of internal/handler/api/auth.go.
use weiyeston.Base.{
  ℕ, suc, ◌≤◌, Bool, true, false, ◌&&◌, not, Option, none, some, is_some, List, [], ◌∷◌, ◌++◌, pos,
  Text, codes, text_eq, ◌==◌, ◌≡◌, ◌≢◌, refl, sym, ap, ◌∙◌, ◌⊎◌, arith, find, any, All,
  if◌then◌else◌, some_injective, text_beq_iff, subst, length, Bool-cases, inl, inr,
}
use weiyeston.Http.{
  Env, next, stop, statement, or_fail, or_respond, require, reject, Response, bound, failure,
}
use weiyeston.Http.Hoare.{
  Ensures, OnValue, Ensures-answers, Ensures->>=, Ensures->>, Ensures-or_fail, Ensures-require,
  Ensures-reject, Ensures-or_respond_cases, Ensures-statement,
}
use weiyeston.Tenant.{Tenant, TenantTables, is_named, is_role}
use weiyeston.Tenant.Repo.{W, query, get_by_username, create, insert_tenant, stored}
use weiyeston.Auth.{Services, hash_password, verify_password}
use weiyeston.Auth.Views.{AuthData, RegisterRequest}
use weiyeston.Auth.Handlers.{server_error, bad_phone, phone_pattern, new_tenant, register}
use weiyeston.Auth.Password.{hash_password-eq-some}

abbrev if_filled : Text → Option Text
if_filled s = if s == [] then none else some s

-- A tenant that waits for its approval.
abbrev pub applicant : ℕ → RegisterRequest → Text → TenantTables → Tenant
applicant now req hash t = record {
  id = pos t.next_tenant;
  username = req.username;
  password_hash = hash;
  nickname = if_filled req.nickname;
  email = if_filled req.email;
  phone = if_filled req.phone;
  company = if_filled req.company;
  avatar_url = none;
  role = codes "user";
  status = pos 0;
  vip_end_time = none;
  vip_level = codes "trial";
  last_login_at = none;
  deleted_at = none;
  created_at = now;
  updated_at = now;
}

-- No live tenant has the name.
abbrev pub IsFree : Text → TenantTables → Type 0
IsFree username t = All (λ (a : Tenant). a.deleted_at ≡ none → a.username ≢ username) t.tenants

is_some-eq-false : {A : Type 0} (o : Option A) → is_some o ≡ false → o ≡ none
is_some-eq-false none h = refl
is_some-eq-false (some a) h = absurd (cc h)

find-IsFree :
    (username : Text) (xs : List Tenant)
    → find (is_named username) xs ≡ none
    → All (λ (a : Tenant). a.deleted_at ≡ none → a.username ≢ username) xs
unfolding find
find-IsFree username [] h = tt
find-IsFree username (x ∷ xs) h = elim (Bool-cases (is_named username x)) [
  | inl named ↦ let clash = rw named at h in absurd (cc clash)
  | inr other ↦
      let rest = rw other at h in
      (
        λ live same.
            let apart = rw live at other in
            absurd (ground (arith, apart, same, text_beq_iff x.username username)),
        find-IsFree username xs rest,
      )
]

insert_tenant-eq-some :
    (now : ℕ) (a b : Tenant) (t u : TenantTables)
    → insert_tenant now a t ≡ some (b, u)
    → u ≡ record t { tenants = t.tenants ++ stored now a t ∷ []; next_tenant = suc t.next_tenant }
unfolding insert_tenant
insert_tenant-eq-some now a b t u h =
    elim (Bool-cases (is_role a.role && not (any (is_named a.username) t.tenants))) [
      | inl taken ↦ let made = rw taken at h in sym (ap (λ p. p.1) (some_injective made))
      | inr refused ↦ let clash = rw refused at h in absurd (cc clash)
    ]

module _ {C : Type 0} (s : Services C) (env : Env) (salt : ℕ) (req : RegisterRequest)
    (w : W C) where
  -- One more row, of a tenant whose hash accepts the password.
  pub record IsRegistered (after : TenantTables) : Type 0 where
    pub hash : Text
    pub short : length req.password ≤ 72
    pub verified : verify_password s hash req.password ≡ true
    pub phone : phone_pattern req.phone ≡ true
    pub free : IsFree req.username w.tables
    pub added : after ≡ record w.tables {
      tenants = w.tables.tenants ++ applicant env.now req hash w.tables ∷ [];
      next_tenant = suc w.tables.next_tenant;
    }

  -- The answers before a row is tried.
  abbrev pub IsRefusal : Response AuthData → Type 0
  IsRefusal r = (r ≡ bad_phone) ⊎ (r ≡ server_error) ⊎ (r ≡ failure 409 40901 "用户名已存在")

  pub record IsAnswer (r : Response AuthData) (t : W C) : Type 0 where
    pub registered : r.status ≡ 201 → IsRegistered t.tables
    pub unchanged : r.status ≢ 201 → t.tables ≡ w.tables
    pub taken : ¬ IsFree req.username w.tables → IsRefusal r

  refused :
      (r : Response AuthData) (t : W C)
      → r.status ≢ 201
      → IsRefusal r
      → t.tables ≡ w.tables
      → IsAnswer r t
  refused r t n refusal same = record {
    registered = λ e. absurd (n e);
    unchanged = λ _. same;
    taken = λ _. refusal;
  }

  abbrev Found : Option Tenant → W C → Type 0
  Found found t = (t.tables ≡ w.tables) × (find (is_named req.username) w.tables.tenants ≡ found)

  get_by_username-Found :
      (u : W C)
      → u.tables ≡ w.tables
      → Ensures
          (OnValue Found (IsAnswer server_error))
          IsAnswer
          (get_by_username env req.username u)
  unfolding get_by_username
  get_by_username-Found u same = go (req.username == [])
    where
      failed : (t : W C) → t.tables ≡ w.tables → IsAnswer server_error t
      failed t e = refused server_error t (λ e. absurd (omega (arith, e))) (inr (inl refl)) e

      go :
          (b : Bool)
          → Ensures
              (OnValue Found (IsAnswer server_error))
              IsAnswer
              (if b then next none u else query env (find (is_named req.username)) u)
      go true = failed u same
      go false =
          Ensures-statement (OnValue Found (IsAnswer server_error)) IsAnswer env
            (λ t. some (find (is_named req.username) t.tenants, t)) u
            (failed (record u { sent = suc u.sent }) same)
            λ a t h. (
              sym (ap (λ p. p.1) (some_injective h)) ∙ same,
              ap (λ t. find (is_named req.username) t.tenants) (sym same)
                  ∙ ap (λ p. p.0) (some_injective h),
            )

  create-IsAnswer :
      (hash : Text) (u : W C)
      → u.tables ≡ w.tables
      → IsFree req.username w.tables
      → Ensures
          (λ _ t. t.tables ≡ record w.tables {
            tenants = w.tables.tenants ++ applicant env.now req hash w.tables ∷ [];
            next_tenant = suc w.tables.next_tenant;
          })
          IsAnswer
          (or_fail (create env (new_tenant req hash)) (failure 500 500 "注册失败") u)
  unfolding create
  create-IsAnswer hash u same free =
      Ensures-or_fail _ IsAnswer (statement env (insert_tenant env.now (new_tenant req hash))) _ u (
        Ensures-statement (OnValue _ (IsAnswer (failure 500 500 "注册失败"))) IsAnswer env
          (insert_tenant env.now (new_tenant req hash)) u
          (record {
            registered = λ e. absurd (omega (arith, e));
            unchanged = λ _. same;
            taken = λ n. absurd (n free);
          })
          λ a t h.
            insert_tenant-eq-some env.now (new_tenant req hash) a w.tables t
              (subst (λ x. insert_tenant env.now (new_tenant req hash) x ≡ some (a, t)) same h))

  register-Ensures : Ensures (λ _ t. ⊥) IsAnswer (register s env salt (bound req) w)
  unfolding register
  register-Ensures =
      Ensures->> (λ _ t. (phone_pattern req.phone ≡ true) × (t ≡ w)) (λ _ t. ⊥) IsAnswer
        (require (phone_pattern req.phone) bad_phone) _ w
        (Ensures-require _ IsAnswer (phone_pattern req.phone) bad_phone w (λ p. (p, refl))
          λ _. refused bad_phone w (λ e. absurd (omega (arith, e))) (inl refl) refl)
        λ _ t (p, start).
          Ensures->>= Found (λ _ t. ⊥) IsAnswer
            (or_fail (get_by_username env req.username) server_error) _ t
            (Ensures-or_fail Found IsAnswer (get_by_username env req.username) server_error t
              (get_by_username-Found t (ap (λ w. w.tables) start)))
            λ found u f.
              Ensures->> (λ _ t. (t ≡ u) × (found ≡ none)) (λ _ t. ⊥) IsAnswer
                (reject (is_some found) (failure 409 40901 "用户名已存在")) _ u
                (Ensures-reject _ IsAnswer (is_some found) (failure 409 40901 "用户名已存在") u
                  (λ e. (refl, is_some-eq-false found e))
                  λ _.
                    refused (failure 409 40901 "用户名已存在") u (λ e. absurd (omega (arith, e)))
                      (inr (inr refl)) f.0)
                λ _ v (here, absent).
                  let free = find-IsFree req.username w.tables.tenants (f.1 ∙ absent) in
                  let same = ap (λ w. w.tables) here ∙ f.0 in
                  Ensures->>= (λ hash t. (hash_password s salt req.password ≡ some hash) × (t ≡ v))
                    (λ _ t. ⊥) IsAnswer
                    (or_respond (hash_password s salt req.password) server_error) _ v
                    (Ensures-or_respond_cases _ IsAnswer (hash_password s salt req.password)
                      server_error v (λ h k. (k, refl))
                      λ _.
                        refused server_error v (λ e. absurd (omega (arith, e))) (inr (inl refl))
                          same)
                    λ hash x (hashed, there).
                      Ensures->>= _ (λ _ t. ⊥) IsAnswer
                        (or_fail (create env (new_tenant req hash)) (failure 500 500 "注册失败")) _ x
                        (create-IsAnswer hash x (ap (λ w. w.tables) there ∙ same) free)
                        λ user y added.
                          let good = hash_password-eq-some s env salt req.password hash hashed in
                          record {
                            registered = λ _. record {
                              hash = hash;
                              short = good.0;
                              verified = good.1;
                              phone = p;
                              free = free;
                              added = added;
                            };
                            unchanged = λ n. absurd (n refl);
                            taken = λ n. absurd (n free);
                          }

-- With a body that binds, Register answers. If it answers 201, no live tenant had the name, and the table
-- has one more row at its end: a user with the fields of the request that are not empty, under the next
-- id, who waits for approval with status 0 and whose hash accepts the password, which has at most 72
-- bytes. With any other answer the tables are as they were. Where a live tenant has the name, the answer
-- is that of a bad phone number, of a server error, or 409: no row is tried.
pub register-IsAnswer :
    {C : Type 0} (s : Services C) (env : Env) (salt : ℕ) (req : RegisterRequest) (w : W C)
    → (r : Response AuthData) × (t : W C) × (register s env salt (bound req) w ≡ stop r t)
      × IsAnswer s env salt req w r t
register-IsAnswer s env salt req w =
    Ensures-answers (IsAnswer s env salt req w) (register s env salt (bound req) w)
      (register-Ensures s env salt req w)

-- ===== src/Auth/Password.antt =====
-- The password that ChangePassword and ResetPassword of internal/handler/api/auth.go set.
pub mod Reset
pub mod Change
use weiyeston.Base.{
  ℕ, suc, ◌≤◌, Bool, true, false, Option, none, some, List, [], ◌∷◌, ℤ, pos, Text, text_eq, nat_eq,
  int_eq, ◌==◌, ltb, leb_ℤ, ◌≡◌, ◌≢◌, refl, sym, ap, ◌∙◌, arith, find, count, update_where,
  if◌then◌else◌, text_beq_iff, some_injective, length, String, All, All-update_where,
  update_where-All, Bool-cases, Option-cases, inl, inr, subst, Pairs, Pairs-update_where, ◌⊎◌,
  int_beq_iff,
}
use weiyeston.Http.{
  Env, Run, next, stop, ◌>>=◌, ◌>>◌, or_fail, or_respond, or_invalid, require, reject, Response,
  bound, statement, failure, success, pure, respond,
}
use weiyeston.Http.Hoare.{
  Ensures, OnValue, Ensures-stop, Ensures->>=, Ensures->>, Ensures-or_fail,
  Ensures-or_respond_cases, Ensures-require, Ensures-statement,
}
use weiyeston.Middleware.{int64}
use weiyeston.Tenant.{Tenant, TenantTables, is_live, has_phone}
use weiyeston.Tenant.Repo.{
  W, get_by_phone, get_by_id, query, update_password, update_live, with_password, if_affected,
}
use weiyeston.Auth.{Services, Bcrypt, hash_password, verify_password}
use weiyeston.Auth.Views.{AuthData, ResetPasswordRequest, ChangePasswordRequest}
use weiyeston.Auth.Handlers.{server_error, phone_pattern, preset_code, set_password, reset_password}
use weiyeston.Auth.Profile.{change_password}

-- The rows that `id = $1 AND deleted_at IS NULL` finds.
pub is_live-eq-true :
    (id : ℤ) (a : Tenant) → is_live id a ≡ true → (a.id ≡ id) × (a.deleted_at ≡ none)
is_live-eq-true id a e = elim (Option-cases a.deleted_at) [
  | inl live ↦ (ground (arith, e, int_beq_iff a.id id), live)
  | inr (end, gone) ↦ let clash = rw gone at e in absurd (ground (arith, clash))
]

is_live-eq-false :
    (id : ℤ) (a : Tenant) → is_live id a ≡ false → (a.id ≢ id) ⊎ (a.deleted_at ≢ none)
is_live-eq-false id a e = elim (Option-cases a.deleted_at) [
  | inl live ↦
      let apart = rw live at e in
      inl (λ same. absurd (ground (arith, apart, same, int_beq_iff a.id id)))
  | inr (end, gone) ↦ inr (λ live. absurd (cc (live, gone)))
]

module _ {C : Type 0} (s : Services C) (env : Env) where
  abbrev replaced_in : ℤ → Text → TenantTables → TenantTables
  replaced_in id hash t = record t {
    tenants = update_where (is_live id) (with_password env.now hash) t.tenants;
  }

  -- The row of a live tenant gets a hash and the time; any other row stays.
  abbrev pub IsRehashed : ℤ → Text → Tenant → Tenant → Type 0
  IsRehashed id hash a b =
      ((a.id ≡ id)
        × (a.deleted_at ≡ none)
        × (b ≡ record a { password_hash = hash; updated_at = env.now }))
      ⊎ (((a.id ≢ id) ⊎ (a.deleted_at ≢ none)) × (b ≡ a))

  -- A live tenant has a new password, and besides the time of its row nothing else of the tables
  -- differs.
  pub record IsReplaced (id : ℤ) (password : Text) (before after : TenantTables) : Type 0 where
    pub hash : Text
    pub short : length password ≤ 72
    pub verified : verify_password s hash password ≡ true
    pub rows : Pairs (IsRehashed id hash) before.tenants after.tenants
    pub rest : after ≡ record before { tenants = after.tenants }

  replaced_in-IsRehashed :
      (id : ℤ) (hash : Text) (t : TenantTables)
      → Pairs (IsRehashed id hash) t.tenants (replaced_in id hash t).tenants
  replaced_in-IsRehashed id hash t =
      Pairs-update_where (IsRehashed id hash) (is_live id) (with_password env.now hash) t.tenants
        (λ a e. inl (let (same, live) = is_live-eq-true id a e in (same, live, refl)))
        (λ a e. inr (is_live-eq-false id a e, refl))

  pub hash_password-eq-some :
      (salt : ℕ) (password hash : Text)
      → hash_password s salt password ≡ some hash
      → (length password ≤ 72) × (verify_password s hash password ≡ true)
  unfolding hash_password verify_password
  hash_password-eq-some salt password hash h = elim (Bool-cases (ltb 72 (length password))) [
    | inl long ↦ let clash = rw long at h in cc
    | inr short ↦
        let made = rw short at h in
        (ground (arith, short), s.bcrypt.compare-generate salt password hash made)
  ]

  module _ (E : Response AuthData → W C → Type 0) (id : ℤ) (password : Text) (w : W C) where
    abbrev Updated : Text → W C → Type 0
    Updated hash t =
        (count (is_live id) w.tables.tenants ≢ 0) × (t.tables ≡ replaced_in id hash w.tables)

    update_password-Ensures :
        (hash : Text) (r : Response AuthData) (u : W C)
        → u.tables ≡ w.tables
        → ((t : W C) → E r t)
        → Ensures (λ _ t. Updated hash t) E (or_fail (update_password env id hash) r u)
    unfolding update_password update_live
    update_password-Ensures hash r u e failed =
        Ensures-or_fail (λ _ t. Updated hash t) E (update_password env id hash) r u
          (Ensures->>= (λ o t. Rows o t) (OnValue (λ _ t. Updated hash t) (E r)) E
            (statement env (update_live id (with_password env.now hash))) _ u
            (Ensures-statement (λ o t. Rows o t) E env (update_live id (with_password env.now hash))
              u tt
              λ n t h. (
                sym (ap (λ p. p.0) (some_injective h)) ∙ ap (λ t. count (is_live id) t.tenants) e,
                sym (ap (λ p. p.1) (some_injective h)) ∙ ap (replaced_in id hash) e,
              ))
            λ o t rows. affected o t rows)
      where
        Rows : Option ℕ → W C → Type 0
        Rows none t = Unit
        Rows (some n) t =
            (n ≡ count (is_live id) w.tables.tenants) × (t.tables ≡ replaced_in id hash w.tables)

        affected :
            (o : Option ℕ) (t : W C)
            → Rows o t
            → OnValue (λ _ t. Updated hash t) (E r) (if_affected o) t
        affected none t rows = failed t
        affected (some n) t rows = elim (Bool-cases (n == 0)) [
          | inl zero_rows ↦ rw zero_rows (failed t)
          | inr some_rows ↦ rw some_rows ((λ z. ground (arith, some_rows, rows.0, z)), rows.1)
        ]

    pub set_password-Ensures :
        (salt : ℕ) (refusal done : String) (u : W C)
        → u.tables ≡ w.tables
        → ((t : W C) → E server_error t)
        → ((t : W C) → E (failure 500 500 refusal) t)
        → ((t : W C) → IsReplaced id password w.tables t.tables → E (success 200 done none) t)
        → Ensures (λ _ t. Unit {0}) E (set_password s env salt id password refusal done u)
    unfolding set_password
    set_password-Ensures salt refusal done u e failed refused replaced =
        Ensures->>= (λ hash t. (hash_password s salt password ≡ some hash) × (t ≡ u))
          (λ _ t. Unit {0}) E (or_respond (hash_password s salt password) _) _ u
          (Ensures-or_respond_cases _ E (hash_password s salt password) _ u (λ h k. (k, refl))
            λ _. failed u)
          λ hash t (hashed, same).
            Ensures->> (λ _ t. Updated hash t) (λ _ t. Unit {0}) E
              (or_fail (update_password env id hash) _) _ t
              (update_password-Ensures hash (failure 500 500 refusal) t
                (ap (λ w. w.tables) same ∙ e) refused)
              λ _ v (there, tables).
                let good = hash_password-eq-some salt password hash hashed in
                replaced v record {
                  hash = hash;
                  short = good.0;
                  verified = good.1;
                  rows =
                      subst (λ t. Pairs (IsRehashed id hash) w.tables.tenants t.tenants)
                        (sym tables) (replaced_in-IsRehashed id hash w.tables);
                  rest = tables ∙ ap (λ t. record w.tables { tenants = t.tenants }) (sym tables);
                }

-- ===== src/Tenant/Keeps.antt =====
-- Invariants of the tenants under the queries of internal/repository/tenant/tenant.go and under
-- commands to Redis, whatever the handler that sends them answers.
use weiyeston.Base.{
  suc, Bool, true, false, Option, none, some, List, [], ℤ, pos, Text, text_eq, ◌==◌, if◌then◌else◌,
  leb_ℤ, find,
}
use weiyeston.Http.{Env, next, after}
use weiyeston.Http.Keeps.{Keeps, On, Keeps-statement}
use weiyeston.Redis.{command, receive}
use weiyeston.Tenant.{Tenant, TenantTables, is_live, is_named, has_phone}
use weiyeston.Tenant.Repo.{query, get_by_id, get_by_username, get_by_phone}

module _ {C : Type 0} (D : Type 0) (J : TenantTables → Type 0) (env : Env) where
  pub Keeps-command :
      {A : Type 0} → (q : C → Option (A × C)) → Keeps {D = D} (On {C = C} J) (command env q)
  Keeps-command {A = A} q w h = go (env.fails w.sent) (q w.store)
    where
      go :
          (b : Bool) (o : Option (A × C))
          → On J (
              after {D = D} (if b then next none (record w { sent = suc w.sent }) else receive w o))
      go true o = h
      go false none = h
      go false (some (a, c)) = h

  pub query-Keeps :
      {A : Type 0} → (f : List Tenant → A) → Keeps {D = D} (On {C = C} J) (query env f)
  query-Keeps f = Keeps-statement D J env (λ t. some (f t.tenants, t)) (λ t h. h)

  -- A query that asks nothing under a condition.
  unless-Keeps :
      {A : Type 0}
      → (b : Bool) (f : List Tenant → A)
      → Keeps {D = D} (On {C = C} J) (λ w. if b then next none w else query env f w)
  unless-Keeps true f w h = h
  unless-Keeps false f w h = query-Keeps f w h

  pub get_by_id-Keeps : (id : ℤ) → Keeps {D = D} (On {C = C} J) (get_by_id env id)
  unfolding get_by_id
  get_by_id-Keeps id = unless-Keeps (leb_ℤ id (pos 0)) (find (is_live id))

  pub get_by_username-Keeps : (s : Text) → Keeps {D = D} (On {C = C} J) (get_by_username env s)
  unfolding get_by_username
  get_by_username-Keeps s = unless-Keeps (s == []) (find (is_named s))

  pub get_by_phone-Keeps : (s : Text) → Keeps {D = D} (On {C = C} J) (get_by_phone env s)
  unfolding get_by_phone
  get_by_phone-Keeps s = unless-Keeps (s == []) (find (has_phone s))

-- ===== src/Middleware/Tenant.antt =====
-- internal/middleware/tenant.go.
use weiyeston.Base.{
  ◌≡◌, ◌≢◌, ◌⊎◌, inl, inr, refl, sym, ◌∷◌, Option, none, some, [], ℤ, pos, Text, text_eq, ◌==◌,
  text_beq, arith, if◌then◌else◌,
}
use weiyeston.Http.{Run, next}
use weiyeston.Strconv.{parse_int}
use weiyeston.Middleware.{Value, int64, float64, Context}

-- The tenant of a user, where nothing else names one.
abbrev pub own_tenant : Option Value → Value
own_tenant (some (int64 v)) = int64 v
own_tenant (some (float64 v)) = int64 v
own_tenant _ = int64 (pos 0)

-- The number in the X-Tenant-ID header, which is empty if the request has none.
abbrev pub header_tenant : Text → Option ℤ
header_tenant header = if header == [] then none else parse_int header

abbrev derive : Option Value → Context → Context
derive (some t) ctx = ctx
derive none ctx = record ctx { tenant_id = some (own_tenant ctx.user_id) }

abbrev choose : Option ℤ → Context → Context
choose (some id) ctx = record ctx { tenant_id = some (int64 id) }
choose none ctx = derive ctx.tenant_id ctx

unfoldable pub tenant : Text → Context → Run Context (Unit {0}) (Unit {0})
tenant header ctx = next tt (choose (header_tenant header) ctx)

-- The order of precedence that the source's comment gives.
abbrev pub precedence : Option ℤ → Option Value → Option Value → Value
precedence (some id) known user = int64 id
precedence none (some t) user = t
precedence none none user = own_tenant user

pub tenant-precedence :
    (header : Text) (ctx : Context)
    → tenant header ctx
      ≡ next tt (record ctx {
        tenant_id = some (precedence (header_tenant header) ctx.tenant_id ctx.user_id);
      })
unfolding tenant
tenant-precedence header ctx = ground arith

-- Which tenant a request gets: that of the header if it is an int64, or else that of the context, or
-- else the user's own number, or else 0.
pub data IsTenantOf (header : Text) (ctx : Context) : Value → Type 0 where
  of_header : {id : ℤ} → parse_int header ≡ some id → IsTenantOf header ctx (int64 id)
  of_context :
      {v : Value} → parse_int header ≡ none → ctx.tenant_id ≡ some v → IsTenantOf header ctx v
  of_user :
      {id : ℤ}
      → parse_int header ≡ none
      → ctx.tenant_id ≡ none
      → (ctx.user_id ≡ some (int64 id)) ⊎ (ctx.user_id ≡ some (float64 id))
      → IsTenantOf header ctx (int64 id)
  of_nobody :
      parse_int header ≡ none
      → ctx.tenant_id ≡ none
      → ((id : ℤ) → (ctx.user_id ≢ some (int64 id)) × (ctx.user_id ≢ some (float64 id)))
      → IsTenantOf header ctx (int64 (pos 0))

header_tenant_lem : (header : Text) → header_tenant header ≡ parse_int header
unfolding parse_int text_beq
header_tenant_lem [] = refl
header_tenant_lem (c ∷ s) = refl

precedence-IsTenantOf :
    (header : Text) (ctx : Context) (named : Option ℤ) (known user : Option Value)
    → parse_int header ≡ named
    → ctx.tenant_id ≡ known
    → ctx.user_id ≡ user
    → IsTenantOf header ctx (precedence named known user)
precedence-IsTenantOf header ctx (some id) known user h k u = of_header h
precedence-IsTenantOf header ctx none (some t) user h k u = of_context h k
precedence-IsTenantOf header ctx none none (some (int64 v)) h k u = of_user h k (inl u)
precedence-IsTenantOf header ctx none none (some (float64 v)) h k u = of_user h k (inr u)
precedence-IsTenantOf header ctx none none (some _) h k u =
    of_nobody h k (λ id. ((λ e. absurd (cc (e, u))), λ e. absurd (cc (e, u))))
precedence-IsTenantOf header ctx none none none h k u =
    of_nobody h k (λ id. ((λ e. absurd (cc (e, u))), λ e. absurd (cc (e, u))))

-- The middleware never aborts, and changes the tenant of the context alone. The tenant is the one that
-- X-Tenant-ID names, if it is the decimal of an int64; or else what the context has; or else the number
-- of the user, int64 or float64; or else 0.
pub tenant_lem :
    (header : Text) (ctx : Context)
    → (v : Value) × (tenant header ctx ≡ next tt (record ctx { tenant_id = some v }))
      × IsTenantOf header ctx v
tenant_lem header ctx =
    let v = precedence (header_tenant header) ctx.tenant_id ctx.user_id in
    (
      v,
      tenant-precedence header ctx,
      precedence-IsTenantOf header ctx (header_tenant header) ctx.tenant_id ctx.user_id
          (sym (header_tenant_lem header)) refl refl,
    )

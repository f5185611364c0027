-- ===== src/Middleware/Role.antt =====
-- internal/middleware/role.go.
use weiyeston.Base.{
  ◌≡◌, refl, Option, none, some, List, [], ◌∷◌, Text, text_eq, ◌==◌, arith, if◌then◌else◌, ◌⊎◌, inl,
  inr, ap, ◌≢◌, Bool-cases, text_beq_iff,
}
use weiyeston.Http.{Run, next, stop, failure}
use weiyeston.Middleware.{Value, int64, float64, text, other, Context, Aborted}

abbrev pub forbidden : Aborted
forbidden = failure 403 403 "权限不足"

-- The loop over the allowed roles.
unfoldable pub check_role : List Text → Text → Context → Run Context (Unit {0}) (Unit {0})
check_role [] role ctx = stop forbidden ctx
check_role (allowed ∷ roles) role ctx =
    if role == allowed then next tt ctx else check_role roles role ctx

abbrev dispatch_role : List Text → Option Value → Context → Run Context (Unit {0}) (Unit {0})
dispatch_role roles (some (text role)) ctx = check_role roles role ctx
dispatch_role roles _ ctx = stop forbidden ctx

unfoldable pub require_role : List Text → Context → Run Context (Unit {0}) (Unit {0})
require_role roles ctx = dispatch_role roles ctx.role ctx

abbrev pub HasRole : List Text → Option Value → Type 0
HasRole [] role = ⊥
HasRole (allowed ∷ roles) role = (role ≡ some (text allowed)) ⊎ HasRole roles role

HasRole-text :
    (roles : List Text) (role : Option Value)
    → ((r : Text) → role ≢ some (text r))
    → ¬ HasRole roles role
HasRole-text [] role n h = h
HasRole-text (allowed ∷ roles) role n (inl same) = n allowed same
HasRole-text (allowed ∷ roles) role n (inr later) = HasRole-text roles role n later

check_role-of-HasRole :
    (roles : List Text) (role : Text) (ctx : Context)
    → HasRole roles (some (text role))
    → check_role roles role ctx ≡ next tt ctx
unfolding check_role
check_role-of-HasRole [] role ctx h = absurd h
check_role-of-HasRole (allowed ∷ roles) role ctx (inl same) =
    let equal : role ≡ allowed = ground arith in ground (arith, text_beq_iff role allowed)
check_role-of-HasRole (allowed ∷ roles) role ctx (inr later) =
    ground (arith, check_role-of-HasRole roles role ctx later)

check_role-cases :
    (roles : List Text) (role : Text) (ctx : Context)
    → HasRole roles (some (text role)) ⊎ (check_role roles role ctx ≡ stop forbidden ctx)
unfolding check_role
check_role-cases [] role ctx = inr refl
check_role-cases (allowed ∷ roles) role ctx = elim (Bool-cases (role == allowed)) [
  | inl same ↦ inl (inl (ap (λ r. some (text r)) ((text_beq_iff role allowed).0 same)))
  | inr differs ↦ elim (check_role-cases roles role ctx) [
    | inl later ↦ inl (inr later)
    | inr refused ↦ inr (rw differs refused)
  ]
]

pub require_role-cases :
    (roles : List Text) (ctx : Context)
    → HasRole roles ctx.role ⊎ (require_role roles ctx ≡ stop forbidden ctx)
unfolding require_role
require_role-cases roles ctx = go ctx.role
  where
    go :
        (role : Option Value)
        → HasRole roles role ⊎ (dispatch_role roles role ctx ≡ stop forbidden ctx)
    go (some (text role)) = check_role-cases roles role ctx
    go none = inr refl
    go (some (int64 v)) = inr refl
    go (some (float64 v)) = inr refl
    go (some other) = inr refl

-- A request goes on, with its context as it was, if its role is one of the listed roles; without a
-- role, with a role that is no text or with any other role it is answered 403.
pub require_role_lem :
    (roles : List Text) (ctx : Context)
    → (HasRole roles ctx.role → require_role roles ctx ≡ next tt ctx)
      × (¬ HasRole roles ctx.role → require_role roles ctx ≡ stop forbidden ctx)
unfolding require_role
require_role_lem roles ctx = by_role ctx.role
  where
    by_role :
        (role : Option Value)
        → (HasRole roles role → dispatch_role roles role ctx ≡ next tt ctx)
          × (¬ HasRole roles role → dispatch_role roles role ctx ≡ stop forbidden ctx)
    by_role (some (text role)) = (
      check_role-of-HasRole roles role ctx,
      λ h. elim (check_role-cases roles role ctx) [ inl has ↦ absurd (h has) | inr e ↦ e ],
    )
    by_role none = (λ h. absurd (HasRole-text roles none (λ r e. cc) h), λ h. refl)
    by_role (some (int64 v)) = (λ h. absurd (HasRole-text roles _ (λ r e. cc) h), λ h. refl)
    by_role (some (float64 v)) = (λ h. absurd (HasRole-text roles _ (λ r e. cc) h), λ h. refl)
    by_role (some other) = (λ h. absurd (HasRole-text roles _ (λ r e. cc) h), λ h. refl)

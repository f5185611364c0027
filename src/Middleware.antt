-- ===== src/Middleware.antt =====
-- internal/middleware: the chain that a request of /api/v1 passes before its handler.
--
-- gin.Context holds the three keys that the chain sets. A middleware that calls c.Next ends in
-- `next`, one that aborts in `stop`.
pub mod Auth
pub mod Tenant
pub mod Role
pub mod Cors
mod Tests
use weiyeston.Base.{ℕ, Option, none, some, ℤ, Text, String}
use weiyeston.Http.{Response, failure}

-- A value of type `interface{}`. Of a float64 the source takes int64(v) only, which is kept.
pub data Value : Type 0 where
  int64 float64 : ℤ → Value
  text : Text → Value
  other : Value

pub record Context : Type 0 where
  pub user_id : Option Value
  pub tenant_id : Option Value
  pub role : Option Value

abbrev pub Aborted : Type 0
Aborted = Response (Unit {0})

abbrev pub unauthorized : Aborted
unauthorized = failure 401 401 "未授权访问"

abbrev pub invalid_token : Aborted
invalid_token = failure 401 401 "token 无效或已过期"

-- ===== src/Wechat.antt =====
-- What internal/service/wechat/wechat.go stands on: internal/repository/ticket/ticket.go, the accounts of
-- internal/repository/account/account.go, the cache, and url.QueryEscape.
--
-- A method that returns an error ends in `stop` with `error`; a caller that goes on all the same takes
-- it by `attempt`.
pub mod Tokens
pub mod Events
pub mod Live
pub mod Stale
mod Tests
use weiyeston.Base.{
  ℕ, suc, ◌+◌, ◌-◌, ◌/◌, ◌%◌, Bool, ◌&&◌, ◌||◌, Option, none, some, List, [], ◌∷◌, ◌++◌, Text,
  text_eq, nat_eq, ◌==◌, ltb, leb, filter, find, sort_by, String, if◌then◌else◌, true,
}
use weiyeston.Http.{Env, World, Run, next, stop, statement, Response, failure}
use weiyeston.Sql.{did}
use weiyeston.Account.{AccountTables}

pub record Ticket : Type 0 where
  pub component_appid : Text
  pub ticket : Text
  pub received_at : ℕ

pub record PlatformTables : Type 0 where
  pub accounts : AccountTables
  pub tickets : List Ticket

abbrev pub W : Type 0 → Type 0
W C = World PlatformTables C

abbrev pub M : Type 0 → Type 0 → Type 0
M C A = W C → Run (W C) (Unit {0}) A

abbrev pub error : String → Response (Unit {0})
error msg = failure 200 0 msg

-- A panic, which the recovery middleware answers.
abbrev pub panic : Response (Unit {0})
panic = failure 500 500 ""

module _ {C A : Type 0} where
  -- A call whose error the caller drops.
  abbrev pub attempt : M C A → M C (Unit {0})
  attempt m w = elim (m w) [ next a t ↦ next tt t | stop r t ↦ next tt t ]

  -- A method of the account repository, which reads and writes the accounts only.
  abbrev pub lift :
      (World AccountTables (List (Text × Text))
        → Run (World AccountTables (List (Text × Text))) (Unit {0}) A)
      → M C A
  lift m w = elim (m (record { tables = w.tables.accounts; sent = w.sent; store = [] })) [
    | next a t ↦
        next a (record w { tables = record w.tables { accounts = t.tables }; sent = t.sent })
    | stop r t ↦
        stop r (record w { tables = record w.tables { accounts = t.tables }; sent = t.sent })
  ]

-- The tickets of a component, the latest first.
abbrev pub latest_of : Text → List Ticket → Option Ticket
latest_of app_id tickets =
    find (λ x. true)
      (sort_by (λ a b. ltb b.received_at a.received_at)
        (filter (λ t. t.component_appid == app_id) tickets))

abbrev text_of : Option Ticket → Text
text_of none = []
text_of (some t) = t.ticket

module _ {C : Type 0} (env : Env) where
  unfoldable pub save_ticket : (app_id ticket : Text) → M C (Option (Unit {0}))
  save_ticket app_id ticket = statement env λ t. did (record t {
    tickets =
        t.tickets
        ++ record { component_appid = app_id; ticket = ticket; received_at = env.now } ∷ [];
  })

  -- No ticket is the empty text.
  unfoldable pub get_latest_ticket : Text → M C (Option Text)
  get_latest_ticket app_id = statement env λ t. some (text_of (latest_of app_id t.tickets), t)

abbrev hex : ℕ → ℕ
hex n = if ltb n 10 then 48 + n else 55 + n

abbrev is_unreserved : ℕ → Bool
is_unreserved c =
    leb 65 c && leb c 90
    || leb 97 c && leb c 122
    || leb 48 c && leb c 57
    || c == 45
    || c == 95
    || c == 46
    || c == 126

-- url.QueryEscape, byte by byte.
unfoldable pub query_escape : Text → Text
query_escape [] = []
query_escape (c ∷ s) =
    let rest = query_escape s in
    if is_unreserved c
    then c ∷ rest
    else if c == 32
    then 43 ∷ rest
    else 37 ∷ hex (c / 16) ∷ hex (c % 16) ∷ rest

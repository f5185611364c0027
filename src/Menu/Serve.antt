-- ===== src/Menu/Serve.antt =====
-- The server under a series of requests to the routes of internal/handler/api/menu.go.
use weiyeston.Base.{Option, List, [], ◌∷◌, Text}
use weiyeston.Middleware.{Value}
use weiyeston.Http.{Env, after, Bound}
use weiyeston.Http.Keeps.{Keeps, On}
use weiyeston.Menu.{MenuTables, W}
use weiyeston.Menu.Handlers.{H, get_menu, save_draft, publish, delete_draft}
use weiyeston.Menu.Walk.{
  KeptByMenus, get_menu-Keeps, save_draft-Keeps, publish-Keeps, delete_draft-Keeps,
}

-- The requests to the routes of a menu.
pub data MenuRequest : Type 0 where
  to_get to_publish to_delete : Text → Option Value → MenuRequest
  to_save : Text → Option Value → Bound Text → MenuRequest

abbrev pub handle : Env → MenuRequest → H (Unit {0})
handle env (to_get param tenant) = get_menu env param tenant
handle env (to_publish param tenant) = publish env param tenant
handle env (to_delete param tenant) = delete_draft env param tenant
handle env (to_save param tenant body) = save_draft env param tenant body

-- The server after a series of requests, one at a time, each at its time and with its failures.
abbrev pub serve_menus : List (Env × MenuRequest) → W → W
serve_menus [] w = w
serve_menus ((env, request) ∷ requests) w = serve_menus requests (after (handle env request w))

module _ (J : MenuTables → Type 0) (laws : KeptByMenus J) where
  handle-Keeps : (env : Env) (request : MenuRequest) → Keeps (On J) (handle env request)
  handle-Keeps env (to_get param tenant) = get_menu-Keeps J laws env param tenant
  handle-Keeps env (to_publish param tenant) = publish-Keeps J laws env param tenant
  handle-Keeps env (to_delete param tenant) = delete_draft-Keeps J laws env param tenant
  handle-Keeps env (to_save param tenant body) = save_draft-Keeps J laws env param tenant body

  pub serve_menus-Keeps :
      (requests : List (Env × MenuRequest)) (w : W) → J w.tables → J (serve_menus requests w).tables
  serve_menus-Keeps [] w h = h
  serve_menus-Keeps ((env, request) ∷ requests) w h =
      serve_menus-Keeps requests (after (handle env request w)) (handle-Keeps env request w h)

-- ===== src/Api/Server.antt =====
-- api.go: the server that Start runs, and the routes whose answer is a constant or comes from a library.
use cave.Base.{
  ℕ, Bool, true, false, List, [], ◌∷◌, ◌++◌, Bytes, codes, if◌then◌else◌, Dict, Err, Outcome, ret,
  fail, panic,
}
use cave.Boot.{Config}
use cave.Log.{Level, info, error}

-- How Start serves: with a certificate and its key, or without.
pub data Serving : Type 0 where
  tls : (address certificate key : Bytes) → Serving
  plain : (address : Bytes) → Serving

-- 0.0.0.0 with the decimal text of the port
abbrev pub listen_address : Bytes → Bytes
listen_address port = codes "0.0.0.0:" ++ port

unfoldable pub serving : Config → Bytes → Serving
serving c port =
    if c.ssl.enable
    then tls (listen_address port) c.ssl.certificate c.ssl.key
    else plain (listen_address port)

-- The line that Start logs first.
abbrev pub listening_line : Config → Bytes → Level × Bytes
listening_line c port = (
  info,
  codes "API listening on "
      ++ ((if c.ssl.enable then codes "https://" else codes "http://") ++ listen_address port),
)

-- Start: the line, and the error with which the server ends, which it always has. `ended` is its text.
unfoldable pub api_start : Config → Bytes → (Serving → Bytes) → List (Level × Bytes)
unfolding serving
api_start c port ended = listening_line c port ∷ (error, ended (serving c port)) ∷ []

-- watch: the polls of the terminator, of which the first that finds a signal shuts the server down. An
-- error of the shutdown is logged.
unfoldable pub watch : List Bool → Outcome (Unit {0}) → (Err → Bytes) → List (Level × Bytes)
watch [] shutdown text = []
watch (false ∷ polls) shutdown text = watch polls shutdown text
watch (true ∷ polls) (fail e) text = (error, text e) ∷ []
watch (true ∷ polls) r text = []

-- routeLogin: whoever asks gets the answer.
unfoldable pub route_login : ℕ × Dict Bytes
route_login = (200, (codes "message", codes "ok") ∷ [])

-- routeDashboard; `dashboard` is the text of getDashboard.
unfoldable pub route_dashboard : Bytes → ℕ × Bytes
route_dashboard dashboard = (200, dashboard)

-- routeSystemConfig: the whole configuration.
unfoldable pub route_system_config : Config → ℕ × Config
route_system_config c = (200, c)

-- routeSystemInfo: what gopsutil gives of the host, with the environment; the error is answered as its
-- method, which does not encode, so that the handler fails.
unfoldable pub route_system_info :
    {Info : Type 0} → Err → Outcome Info → List Bytes → Outcome (ℕ × (Info × List Bytes))
route_system_info unsupported (ret i) env = ret (200, (i, env))
route_system_info unsupported (fail e) env = fail unsupported
route_system_info unsupported panic env = panic

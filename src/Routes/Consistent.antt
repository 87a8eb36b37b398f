-- ===== src/Routes/Consistent.antt =====
-- The constraints of the schema across requests.
use yaima.Base.{List}
use yaima.Config.{Config}
use yaima.External.{Env}
use yaima.Db.Schema.{IsConsistent}
use yaima.Db.Consistent.{IsConsistent-statements}
use yaima.Program.{World}
use yaima.Middleware.{Request}
use yaima.Routes
use yaima.Routes.Keeps.{serve_keeps}

module _ {S : Type 0} (env : Env S) (config : Config) where
  -- After any sequence of requests, whichever of their calls fail, the database meets the primary
  -- keys, `UNIQUE` constraints and foreign keys of the schema if it met them before.
  pub serve-IsConsistent :
      (requests : List (Request × Routes.Endpoint)) (w : World S)
      → IsConsistent w.db
      → IsConsistent (Routes.serve env config requests w).db
  serve-IsConsistent = serve_keeps IsConsistent-statements env config

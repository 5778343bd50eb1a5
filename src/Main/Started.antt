-- ===== src/Main/Started.antt =====
-- What runs after the server has started (cmd/server/main.go).
use quantix_cnnector_go.Prelude.{
  inr, List, ℕ, ◌≡◌, refl, sym, ap, subst, Bool, none, some, get_elem?, ◌⊎◌,
}
use quantix_cnnector_go.Value.{Libs, Result, ok, err, panic, Error}
use quantix_cnnector_go.Driver.{Driver}
use quantix_cnnector_go.Config.{Settings}
use quantix_cnnector_go.Manager.Device.{Device}
use quantix_cnnector_go.Manager.Lifecycle.{Manager, Store, Done, returned, blocked, startup}
use quantix_cnnector_go.Manager.Lifecycle.Startup.{Runs, IsKeyed, startup-Runs}
use quantix_cnnector_go.PrintAgent.{PrintAgentService}
use quantix_cnnector_go.PrintAgent.Lifecycle.{new_print_agent_service}
use quantix_cnnector_go.Main.{App, started, app_of, booted, with_agent, boot}

module _ (lib : Libs) {D : Type 0} (drv : Driver D) (late : Bool) (now : ℕ) where
  booted-started :
      (agent : PrintAgentService) (r : Manager D × Done) (app : App D)
      → booted lib drv late now agent r ≡ started app
      → (r.1 ≡ returned none) × (app.manager ≡ r.0)
  booted-started agent (m, returned none) app h =
      let same : app_of lib drv late now m agent ≡ app = cc in
      (refl, ap (λ a. a.manager) (sym same))
  booted-started agent (m, returned (some e)) app h = cc
  booted-started agent (m, blocked) app h = cc

  with_agent-started :
      (agent : Result PrintAgentService) (r : Manager D × Done) (app : App D)
      → with_agent lib drv late now r agent ≡ started app
      → (r.1 ≡ returned none) × (app.manager ≡ r.0)
  with_agent-started (ok agent) r app h = booted-started agent r app h
  with_agent-started (err e) r app h = cc
  with_agent-started panic r app h = cc

  -- If the server starts, every enabled device has a new runtime with a driver that was built for it:
  -- one device that does not start keeps the server from starting. The database gives the device
  -- that it was asked for.
  pub boot-Runs :
      (db : Store) (build : Device → Error ⊎ D) (m : Manager D) (cfg : Settings) (app : App D)
      (ids : List ℕ) (id k : ℕ)
      → IsKeyed lib drv late now db build
      → boot lib drv late now db build m cfg ≡ started app
      → db.enabled_ids ≡ inr ids
      → get_elem? ids k ≡ some id
      → Runs lib drv late now db build id app.manager
  unfolding boot
  boot-Runs db build m cfg app ids id k keyed h e g =
      let (r, same) =
        with_agent-started (new_print_agent_service cfg.print_agent)
          (startup lib drv db build late now m) app h in
      subst (λ x. Runs lib drv late now db build id x) (sym same)
        (startup-Runs lib drv late now db build keyed m ids id k r e g)

-- ===== src/Main.antt =====
-- cmd/server/main.go: the start of the server and its end. Opening the database, building drivers and
-- whether workers end in time are arguments.
pub mod Started
mod Tests
use quantix_cnnector_go.Prelude.{ℕ, Bool, true, false, Option, none, some, if◌then◌else◌, ◌⊎◌}
use quantix_cnnector_go.Prelude.Text.{Bytes, codes, eq_bytes, trim_space}
use quantix_cnnector_go.Value.{Libs, Result, ok, err, panic, Error}
use quantix_cnnector_go.Driver.{Driver}
use quantix_cnnector_go.Config.{Settings}
use quantix_cnnector_go.Config.Mappings.{is_empty}
use quantix_cnnector_go.Manager.Device.{Device}
use quantix_cnnector_go.Manager.Lifecycle.{Manager, Store, Done, returned, blocked, startup}
use quantix_cnnector_go.Manager.Lifecycle
use quantix_cnnector_go.PrintAgent.{PrintAgentService}
use quantix_cnnector_go.PrintAgent.Lifecycle.{new_print_agent_service, start}
use quantix_cnnector_go.PrintAgent.Lifecycle as Agent

-- The parts that main starts and stops; `shut` is shutdownOnce.
pub record App (D : Type 0) : Type 0 where
  pub manager : Manager D
  pub agent : PrintAgentService
  pub listening : Bool
  pub db_open : Bool
  pub shut : Bool

-- log.Fatalf ends the process; it also ends by a panic, or waits for a runtime that does not answer.
pub data Boot (D : Type 0) : Type 0 where
  started : App D → Boot D
  fatal : Error → Boot D
  crashed : Boot D
  stuck : Boot D

unfoldable pub browser_host : Bytes → Bytes
browser_host host =
    let h = trim_space host in
    if is_empty h
    then codes "127.0.0.1"
    else if eq_bytes h (codes "0.0.0.0")
    then codes "127.0.0.1"
    else if eq_bytes h (codes "::")
    then codes "127.0.0.1"
    else h

module _ (lib : Libs) {D : Type 0} (drv : Driver D) (late : Bool) (now : ℕ) where
  abbrev pub app_of : Manager D → PrintAgentService → App D
  app_of m agent = record {
    manager = m;
    agent = start agent;
    listening = true;
    db_open = true;
    shut = false;
  }

  abbrev pub booted : PrintAgentService → Manager D × Done → Boot D
  booted agent (m, returned none) = started (app_of m agent)
  booted agent (m, returned (some e)) = fatal e
  booted agent (m, blocked) = stuck

  abbrev pub with_agent : Manager D × Done → Result PrintAgentService → Boot D
  with_agent m (ok agent) = booted agent m
  with_agent m (err e) = fatal e
  with_agent m panic = crashed

  -- main, with the manager that has no runtime yet.
  unfoldable pub boot : Store → (Device → Error ⊎ D) → Manager D → Settings → Boot D
  unfolding startup new_print_agent_service start
  boot db build m cfg =
      with_agent (startup lib drv db build late now m) (new_print_agent_service cfg.print_agent)

  -- `waits` is how waiting for a group of the print agent's workers goes.
  abbrev pub stopped : (ℕ → Option Error) → App D → Manager D × Done → App D
  stopped waits app (m, returned e) = record app {
    listening = false;
    manager = m;
    agent = (Agent.shutdown waits app.agent).1;
    db_open = false;
    shut = true;
  }
  stopped waits app (m, blocked) = record app { listening = false; manager = m; shut = true }

  -- The closure `shutdown`, which a signal, an error of the HTTP server and the tray call.
  unfoldable pub shutdown : (ℕ → Option Error) → App D → App D
  shutdown waits app =
      if app.shut then app else stopped waits app (Lifecycle.shutdown lib drv late now app.manager)

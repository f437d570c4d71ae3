-- ===== src/Daemon/Outcome.antt =====
-- What the handlers of boxerd/daemon.py leave behind for a caller who may use the machine.
use boxer.Base.{String}
use boxer.Ipc.{Result, ok, err}
use boxer.Types.{stopped}
use boxer.Db.Schema.{Database}
use boxer.Db.Vms.{update_vm_state}
use boxer.Services.{Services}

module _ {Request World : Type 0} (services : Services World) where
  abbrev pub stopped_at :
      String
      → Database Request
      → Result (Unit {0}) × World
      → Result (Unit {0}) × (Database Request × World)
  stopped_at vm_id db (ok _, world) =
      (ok tt, (update_vm_state vm_id stopped (services.clock world) db, world))
  stopped_at vm_id db (err e, world) = (err e, (db, world))

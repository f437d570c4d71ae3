-- ===== src/Lib.antt =====
-- Boxer is a daemon that gives coding agents virtual machines under a policy: each project has an
-- owner, quotas and leases, and a machine past its lease is stopped and deleted. This library models
-- the daemon's own logic and proves what its parts promise.
--
-- The daemon (boxerd/daemon.py) takes requests, asks the policy (boxerd/policy.py) and the scheduler
-- (boxerd/scheduler.py), calls a backend (libvirt or an emulator) and writes the database
-- (boxerd/db.py). The scheduler's runner serves the queue of requests that did not fit. The lease
-- manager (boxerd/lease_manager.py) scans all machines. Reconciliation (boxerd/reconcile.py) compares
-- the database with libvirt. Labs and profiles (boxerd/labs.py, boxerd/profiles.py) turn short names
-- into requests.
--
-- Which file models what:
--   Base, Base/*: helpers: Boolean tests, lists, and tables as lists of rows (SELECT, UPDATE, DELETE).
--   Ipc, Types: boxer/ipc.py (error codes; exceptions as values) and boxer/types.py (the records).
--   Policy, Policy/Isolation: PolicyEngine of boxerd/policy.py.
--   Db/Schema, Projects, Vms, Queue, Activity, Notices: one definition for each method of Database in
--     boxerd/db.py, under the method's name; a table is a list of rows in the order of insertion, and
--     the constraints (primary keys, UNIQUE, foreign keys, cascades) are written out.
--   Db/WellFormed, Statements, RoundTrip, Frame, Order, Delivery: what the methods keep and answer.
--   Capacity, Scheduler, Scheduler/*: HostCapacity and Scheduler of boxerd/scheduler.py.
--   Action, Services: methods that await and may raise, as functions on the database and a world; the
--     backends (boxerd/vm_ops.py, boxerd/emulator_ops.py), storage, guests, clock and ids as records of
--     operations on that world. What was written before an exception stays written.
--   LeaseManager, LeaseManager/*: the scan of boxerd/lease_manager.py, statement by statement.
--   Names, Names/*: _make_libvirt_name of boxerd/daemon.py and parse_boxer_name of boxerd/reconcile.py,
--     on lists of code points.
--   Reconcile, Reconcile/Agreement: boxerd/reconcile.py.
--   Profiles, Labs: boxerd/profiles.py and boxerd/labs.py.
--   Daemon/Lifecycle, Tracking, Activity: handlers of boxerd/daemon.py, under their names without the
--     leading underscore, and the wrapper _with_project_activity.
--   Json, Daemon/Params, Bootstrap: JSON values, and the readers of parameters of boxerd/daemon.py.
--   Daemon/Hosting, Creation, Request, Installer, Android: vm.request, vm.request_installer and
--     android.request of boxerd/daemon.py: what they are given, the creation of a machine, admission,
--     and the watcher of an installation (Installer/Watcher).
--   Daemon/Promotion: _create_vm_from_request, which the scheduler's runner calls; what the requests and
--     a round of the runner keep, by one rule (Promotion/Rules, Creates, Installs, Devices, Rounds).
--   Images, Images/*: ImageManager of boxerd/image_catalog.py and what it uses of boxerd/signature.py: the
--     cache (Images), fetching (Fetch), the texts of manifests (Lines,
--     Clearsigned, Manifest, Hex, Armor), the expected digest (Digest), the file of a template (Artifacts)
--     and pruning (Pruning); what is served and spared (Verified, Served, Trusted, Spared).
--   Server, Server/Answers: IPCServer of boxerd/ipc_server.py, on what is read from one connection.
--   Daemon/Isolation, Outcome, Deletion, Ghosts: what the handlers do, refuse and leave alone.
--   Samples, Tests/*: concrete data, and each theorem at it.
--
-- Loops over lists are structural recursion. The loops that poll (poll_ssh, watch_loop, wait_loop) are on
-- fuel: the number of seconds to wait, which is enough since a turn takes five seconds or more. A time is a number of microseconds after
-- the epoch. Subtraction of times stops at the epoch. Amounts of RAM are floats, whose type and
-- operations are an interface.
--
-- Not modelled: logging, the texts of messages, JSON and its type tests, sockets, the awaiting of other
-- tasks inside a handler (one handler or scan runs to its end; the race between admission and insertion
-- is stated as two admissions on one state; the watcher of an installation and the wait for it do let
-- other tasks run, which are an argument), hashes, gpg and HTTP, the texts of cloud-init, SSH, adb, networks
-- beyond the calls of vm.delete and of creation, the MCP server and the command line. The sizes and the
-- seconds to wait in a request are natural numbers. Libvirt, SQLite's
-- function `datetime`, the XML parser, qemu-img and the backends are arguments.
pub mod Base
pub mod Ipc
pub mod Json
pub mod Types
pub mod Policy
pub mod Db
pub mod Capacity
pub mod Scheduler
pub mod Action
pub mod Services
pub mod LeaseManager
pub mod Names
pub mod Profiles
pub mod Labs
pub mod Reconcile
pub mod Daemon
pub mod Images
pub mod Server
pub mod Samples
mod Tests

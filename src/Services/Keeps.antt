-- ===== src/Services/Keeps.antt =====
-- Invariants of the database alone, for the actions on services.
use boxer.Base.{ℕ, String, Option, ◌≡◌, refl}
use boxer.Ipc.{Result, ok, err}
use boxer.Types.{Level}
use boxer.Db.Schema.{Database}
use boxer.Action.Keeps.{Keeps, Keeps-bind}
use boxer.Action.Leaves.{Leaves}
use boxer.Action.Moves.{Moves}
use boxer.Db.Notices
use boxer.Services.{
  Services, on_host, query, observe, write, write_checked, written, now, new_id, add_event,
}

-- `P` of the database, whatever the world.
pub record OnDb {Request World : Type 0} (P : Database Request → Type 0)
    (s : Database Request × World) : Type 0 where
  pub db : P s.0

written-at :
    {Request World : Type 0} {P : Database Request → Type 0} (db : Database Request) (world : World)
    (r : Result (Database Request))
    → P db
    → ((db' : Database Request) → r ≡ ok db' → P db')
    → P (written db world r).1.0
written-at db world (ok db') h k = k db' refl
written-at db world (err e) h k = h

module _ {Request World : Type 0} {P : Database Request → Type 0} where
  pub Keeps-on_host :
      {A : Type 0} (call : World → Result A × World) → Keeps (OnDb {World = World} P) (on_host call)
  unfolding on_host
  Keeps-on_host call = record { at = λ s h. record { db = h.db } }

  pub Keeps-query :
      {A : Type 0} (f : Database Request → A) → Keeps (OnDb {World = World} P) (query f)
  unfolding query
  Keeps-query f = record { at = λ s h. record { db = h.db } }

  pub Keeps-observe : {A : Type 0} (f : World → A) → Keeps (OnDb P) (observe f)
  unfolding observe
  Keeps-observe f = record { at = λ s h. record { db = h.db } }

  pub Keeps-write :
      (f : Database Request → Database Request)
      → ((db : Database Request) → P db → P (f db))
      → Keeps (OnDb {World = World} P) (write f)
  unfolding write
  Keeps-write f k = record { at = λ s h. record { db = k s.0 h.db } }

  pub Keeps-write_checked :
      (f : Database Request → Result (Database Request))
      → ((db db' : Database Request) → P db → f db ≡ ok db' → P db')
      → Keeps (OnDb {World = World} P) (write_checked f)
  unfolding write_checked
  Keeps-write_checked f k = record {
    at = λ s h. record { db = written-at s.0 s.1 (f s.0) h.db (λ db'. k s.0 db' h.db) };
  }

  pub Moves-write_checked :
      {Q : Database Request → Type 0} (f : Database Request → Result (Database Request))
      → ((db : Database Request) → P db → Q db)
      → ((db db' : Database Request) → P db → f db ≡ ok db' → Q db')
      → Moves (OnDb P) (OnDb {World = World} Q) (write_checked f)
  unfolding write_checked
  Moves-write_checked f imp k = record {
    at = λ s h. record { db = written-at s.0 s.1 (f s.0) (imp s.0 h.db) (λ db'. k s.0 db' h.db) };
  }

  pub Keeps-now : (services : Services World) → Keeps (OnDb P) (now services)
  unfolding now
  Keeps-now services = Keeps-observe services.clock

  pub Keeps-new_id : (services : Services World) → Keeps (OnDb P) (new_id services)
  unfolding new_id
  Keeps-new_id services = Keeps-on_host _

pub ruleset service_rules = (Keeps-on_host, Keeps-query, Keeps-observe, Keeps-now, Keeps-new_id)

pub Leaves-write :
    {Request World : Type 0} {P : Database Request → Type 0}
    (f : Database Request → Database Request)
    → ((db : Database Request) → P (f db))
    → Leaves (OnDb {World = World} P) (write f)
unfolding write
Leaves-write f k = record { at = λ s a e. record { db = k s.0 } }

-- Statements on tables that `P` does not read.
pub record Ignores {Request : Type 0} (P : Database Request → Type 0) : Type 0 where
  pub event :
      (id message : String) (level : Level) (project_id vm_id : Option String) (t : ℕ)
      (db : Database Request)
      → P db
      → P (Notices.add_event id level message project_id vm_id t db)

pub Keeps-add_event :
    {Request World : Type 0} {P : Database Request → Type 0} (services : Services World)
    (level : Level) (message : String) (project_id vm_id : Option String)
    → Ignores P
    → Keeps (OnDb P) (add_event services level message project_id vm_id)
unfolding add_event
Keeps-add_event services level message project_id vm_id ignores =
    Keeps-bind _ _ (Keeps-new_id services) λ id.
      Keeps-bind _ _ (Keeps-now services)
        λ t. Keeps-write _ λ db h. ignores.event id message level project_id vm_id t db h

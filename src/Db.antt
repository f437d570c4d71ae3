-- ===== src/Db.antt =====
-- boxerd/db.py: the tables of the daemon's database and the statements on them.
-- Each operation is a function on the tables; one that a constraint can refuse returns a `Result`.
-- Times (`_now()`) and generated ids (`uuid4`) are arguments. The source stores a time as the text of
-- `isoformat()` in UTC, whose order is that of the times, and compares it as text; here it is a number.
pub mod Schema
pub mod Projects
pub mod Vms
pub mod Queue
pub mod Activity
pub mod Notices
pub mod WellFormed
pub mod RoundTrip
pub mod Order
pub mod Delivery
pub mod Statements
pub mod Frame

-- ===== src/Db/Delivery.antt =====
-- Notifications of boxerd/db.py after they are marked as delivered.
use boxer.Base.{String, false, ◌≡◌, List, any, ◌==◌}
use boxer.Types.{ProjectNotification}

-- The notification is none of these.
abbrev pub IsOther : List String → ProjectNotification → Type 0
IsOther ids n = any (λ i. n.id == i) ids ≡ false

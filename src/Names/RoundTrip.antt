-- ===== src/Names/RoundTrip.antt =====
-- `_make_libvirt_name` (boxerd/daemon.py) and back by `parse_boxer_name` (boxerd/reconcile.py).

-- ===== src/Tests.antt =====
-- Witnesses of the theorems.
mod Images
mod Requests
mod Handlers
mod Store
mod Rules

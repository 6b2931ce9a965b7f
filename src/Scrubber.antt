-- ===== src/Scrubber.antt =====
-- internal/scrubber/service.go: the trust and signature summary, and the repair of the graph. A Go
-- map from entity to state is the list of its entries; the loops over one do not depend on its
-- order.
pub mod Tables
pub mod Diagnose
pub mod Repair

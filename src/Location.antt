-- ===== src/Location.antt =====
-- heartbeat/location.go: filter the instances that can serve a request, sort and rank their sites,
-- and pick up to four. The operations are in the children; the state they pass on is here.
pub mod Types
pub mod Valid
pub mod Filter
pub mod Sort
pub mod Rank
pub mod Pick
pub mod Nearest

-- ===== src/Query.antt =====
-- internal/query and internal/command/query: the `query` commands. `Input` is input.go, `Bounds` is
-- query.go, and `Paging` is how run.go answers a page or a stream.
pub mod Input
pub mod Bounds
pub mod Paging

-- ===== src/Publish.antt =====
-- internal/publish: a publish of a repo. `Upload` is how publish.go sends the files' content.
pub mod Upload

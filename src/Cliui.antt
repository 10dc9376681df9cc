-- ===== src/Cliui.antt =====
-- internal/cliui: the terminal's interactive parts. `OrgPicker` is org_picker.go.
pub mod OrgPicker

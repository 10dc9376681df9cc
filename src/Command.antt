-- ===== src/Command.antt =====
-- internal/command: what every command shares. `Args` is args.go, `Groups` the exactly-one groups of
-- args.go and of shared/apikit/internal/decode/violations.go, `Admission` is admission.go with
-- internal/dataperm.
pub mod Args
pub mod Groups
pub mod Admission

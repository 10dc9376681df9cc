-- ===== src/Apperr.antt =====
-- shared/apperr: codes and their registry (`Codes`, apperr.go), and formal errors with what a client
-- sees of them (`Errors`, error.go, from.go, context.go, response.go and encapsulation.go).
pub mod Codes
pub mod Errors

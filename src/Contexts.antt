-- ===== src/Contexts.antt =====
-- internal/restconfig/restconfig.go: the kube contexts that a command runs on. What client-go loads is
-- a parameter. All client configurations share one set of loading rules, so there is one explicit path;
-- `explicit_path` of the producer is that shared field.
pub mod Defs
pub mod Plan
pub mod Prefixes
pub mod Several
pub mod Tests

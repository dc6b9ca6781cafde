-- ===== src/Session.antt =====
-- internal/session/session.go: the manager of sessions. Each exported operation holds the manager's
-- mutex over its accesses to the maps and is one function on the state; `storeSession` plans the
-- session before it takes the mutex, so planning and insertion are two functions here.
pub mod Owner
pub mod Manager
pub mod Plan
pub mod Register
pub mod Resume
pub mod Allocate
pub mod Insert
pub mod Live
pub mod Routing

-- ===== src/Scope.antt =====
-- include/ni/scope_guard.hh and src/exception.cc: code that runs when a scope is left.
pub mod Exceptions
pub mod Guard

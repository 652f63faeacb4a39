-- ===== src/Http.antt =====
-- reg_fsm/src/HttpServer.cpp: the adapter between HTTP requests and the manager.
pub mod Target
pub mod Waiters
pub mod Session
pub mod Handler
pub mod Acceptor
pub mod Connection
pub mod Service

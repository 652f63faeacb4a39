-- ===== src/Examples.antt =====
-- Tests, and the theorems at concrete inputs.
mod Answers
mod Flows
mod Factories
mod Managers
mod Timers
mod Pieces
mod Http
mod Acceptor
mod Options
mod Drains
mod Entry
mod Logs
mod Connections
mod Told
mod Requests

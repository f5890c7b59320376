-- ===== src/Tests.antt =====
-- Runs of the model on concrete inputs, and the theorems applied to such inputs.
mod Fixtures
mod Ts
mod Registry
mod Sse
mod Web
mod System
mod Text
mod Life
mod Race
mod MapOrder
mod Events
mod Told
mod Watcher
mod Logged

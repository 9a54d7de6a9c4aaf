-- ===== src/Tests.antt =====
-- Concrete worlds, on which the theorems are applied and the definitions run.
mod Keys
mod Broker
mod Pool
mod Lab
mod Api
mod Numbers
mod Orders
mod Statistics
mod Pages
mod Flows
mod Commands
mod Router
mod Filling
mod Pipeline
mod System

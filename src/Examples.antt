-- ===== src/Examples.antt =====
-- Concrete inputs of the theorems: each example applies one of them to values on which its
-- hypotheses hold.
mod Hook
mod Broker
mod Launch
mod Audit
mod Releases
mod States

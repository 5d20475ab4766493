-- ===== src/Examples.antt =====
-- Tests of the models at concrete inputs, and the theorems at inputs that meet their hypotheses.
mod Registry
mod Lock
mod Limiter
mod Durable
mod Idempotency
mod Incidents
mod Outbox
mod Rollout
mod Retraining
mod Rules
mod Decision

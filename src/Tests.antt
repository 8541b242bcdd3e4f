-- ===== src/Tests.antt =====
-- Runs of the model on concrete data, by the component that they exercise.
mod Sessions
mod Limits
mod Custodies
mod Requests
mod Workers
mod Grants
mod Stores
mod Secrets
mod Audits
mod Mirrors

-- ===== src/Tests.antt =====
-- Runs of the model at concrete inputs: small states of each component of the kernel and the shell,
-- with each theorem that has hypotheses applied to one.
mod Mm
mod Space
mod Tasks
mod Files
mod Screen
mod Draw

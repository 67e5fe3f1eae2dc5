-- ===== src/Tests.antt =====
-- Runs of the relay on concrete inputs, and applications of the theorems to them.
mod Fixtures
mod Submissions
mod Proposals
mod Systems
mod Overlaps
mod Nodes
mod Web

-- ===== src/Workflow.antt =====
-- src/workflows: the reducers of the two workflows.
pub mod Control
pub mod StartWork
pub mod Escalation
pub mod UlwLoop
pub mod TeamDomain
pub mod TeamRoster
pub mod Teammode
pub mod RiskClassifier

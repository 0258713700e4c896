-- ===== src/Access.antt =====
-- Who may do what with a path: the access rules, the shares and assigned volumes, the access manager
-- and the authorisation of an action.
pub mod Rules
pub mod Records
pub mod Manager
pub mod Sharing
pub mod RuleLaws
pub mod Grants
pub mod ShareGrants
pub mod Soundness
pub mod Coherence
pub mod Authorization
pub mod Verdicts
pub mod ShareStore
pub mod ShareStoreLaws
pub mod ShareUpdates
pub mod ShareUpdateLaws
pub mod ShareTargets
pub mod ShareTargetLaws
pub mod ShareTargetsFound
mod Examples
mod StoreExamples
mod TargetExamples

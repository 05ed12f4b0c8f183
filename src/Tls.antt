-- ===== src/Tls.antt =====
-- tlspuffin/src: the claims of TLS agents, and the policy that finds security violations in them.
pub mod Claims
pub mod Policy
pub mod Agreement
pub mod PolicyLaws
pub mod Query
pub mod QueryLaws
pub mod ClaimValues
pub mod ClaimLaws
pub mod KeySchedule
pub mod Sealing
pub mod SealingLaws

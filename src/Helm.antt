-- ===== src/Helm.antt =====
-- internal/helmmgr: releases of Helm charts.
pub mod Api
pub mod Manifest
pub mod Apply
pub mod Records
pub mod Releases
pub mod Proofs

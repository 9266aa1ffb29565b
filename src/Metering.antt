-- ===== src/Metering.antt =====
-- The metering of both protocols into one shared balance (backend/src/services).
pub mod Tables
pub mod Ike
pub mod Xray
pub mod XrayCases
pub mod Ledger
pub mod IkeLedger
pub mod XrayLedger
pub mod Collect
pub mod XrayCharges
pub mod IkeCharges
pub mod IkeRuns

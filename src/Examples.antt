-- ===== src/Examples.antt =====
-- The theorems at concrete inputs: no part of the model.
mod RemuxRuns
mod NodeRuns
mod CryptoRuns
mod HlsRuns
mod LinkRuns
mod GatewayRuns
mod SourceRuns
mod LeakRuns
mod SlateRuns
mod PullRuns
mod RelayRuns
mod ScanRuns

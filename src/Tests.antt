-- ===== src/Tests.antt =====
-- Concrete inputs: the theorems at values that meet their hypotheses.
mod WireTests
mod ProtocolTests
mod IdsTests
mod OrderTests
mod BracketTests
mod ErrorTests
mod HandleTests
mod StreamTests
mod RequestTests
mod RetireTests
mod TransportTests
mod CodecTests
mod OrderRouteTests
mod ExecutionTests

-- ===== src/Tests.antt =====
-- Runs of the code, and the theorems at concrete inputs, with packages that stand for those that the
-- gateway imports.
pub mod CurveModel
pub mod ZodModel
pub mod HonoModel
pub mod Samples
mod KeyTests
mod StealthTests
mod StoreTests
mod FactoryTests
mod RouteTests
mod CreationTests
mod RunTests
mod InternalTests
mod AppTests
mod ClientTests
mod DatabaseTests
mod OverlapTests
mod DashboardTests
mod PlaygroundTests
mod PageTests

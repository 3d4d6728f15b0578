-- ===== src/Tests.antt =====
-- Runs on concrete inputs, and each main theorem applied to one.
mod RocksTests
mod ResolutionTests
mod RuntimeTests
mod IndexTests
mod InstallerTests
mod ChannelTests
mod IndexServerTests
mod UpgradeTests
mod SecurityTests
mod RegistryTests
mod LoadingTests
mod RemoteTests
mod PackageTests
mod GuardTests

-- ===== src/Tests.antt =====
-- The theorems at concrete inputs, over a world in memory.
pub mod Samples
pub mod World
pub mod WorldLaws
pub mod DomainTests
pub mod Worlds
pub mod BatchTests
pub mod VerifyTests
pub mod ProxyTests
pub mod InfraTests
pub mod OauthTests
pub mod AuthTests
pub mod DispatcherTests
mod PostgresTests
mod RedisTests
mod OidcTests
mod HandlerTests
mod Database
mod LogMaskingTests
mod CheckerTests

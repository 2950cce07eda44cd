-- ===== src/Tests.antt =====
-- Concrete inputs on which the theorems of the development are applied.
pub mod Doubles
pub mod Device
mod JsonTests
mod UrlTests
mod CredentialTests
mod SyncTests
mod PullTests
mod PushTests
mod SessionTests
mod StoreTests
mod SchemaTests
mod RegisterTests
mod ResetTests
mod TableTests
mod ApplierTests
mod ConfigTests
mod ConnectionTests

-- ===== src/Banks.antt =====
-- internal/adapters/banks: the REST clients of the banks, over an HTTP transport, a breaker and the
-- encodings of JSON, forms and dates that are given.
pub mod Wire
pub mod Token
pub mod Core
pub mod Pix
pub mod Bb
pub mod Bradesco
pub mod Btg
pub mod Inter
pub mod Santander
pub mod Sicoob
pub mod Caixa
pub mod Sim
pub mod Itau
pub mod Answers
pub mod Registry
pub mod Validators
mod Tests

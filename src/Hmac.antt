-- ===== src/Hmac.antt =====
-- apps/api/src/lib/merchant-hmac.ts: who may call the merchants' interface, and how often a reference
-- is executed. Cryptography, JSON and the conversion of texts to numbers belong to the runtime.
mod Inputs
mod Guard
mod Cache
unfoldable pub use Inputs.*
unfoldable pub use Guard.*
unfoldable pub use Cache.*
pub mod Admitted
pub mod Protocol
pub mod AtMostOnce
pub mod Replay
pub mod Answered

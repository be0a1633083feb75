-- ===== src/Wire/Codec.antt =====
-- The RPC messages of rpc/wire/encode.ts and rpc/wire/decode.ts that carry no payload: bootstrap,
-- finish, release and the exceptions of a return.
pub mod Layout
pub mod Encode
pub mod Decode
pub mod Targets
pub mod Caps
pub mod Messages
pub mod Normal
pub mod DecodedTargets
pub mod RoundTrip
pub mod Exceptions
pub mod ExceptionTrip
pub mod ReturnedErrors
pub mod Refusal
mod Tests

-- ===== src/Api/Json.antt =====
-- JSON, as Go's encoding/json reads it, and the text of a `GovernanceConfig` under the tags of
-- operator/api/v1/computesentrypolicy_types.go.
pub mod Lexer
pub mod Parser
pub mod Config
pub mod Termination
pub mod Lexing
pub mod Printing
pub mod Numbers
pub mod Decoding
pub mod RoundTrip

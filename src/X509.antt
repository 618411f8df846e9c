-- ===== src/X509.antt =====
-- x509.go, asn1.go, asn1time.go and canonicalize.go: certificates as `encoding/asn1` decodes them.
pub mod Types
pub mod Strings
pub mod Canonical
pub mod Time
pub mod Parse
pub mod Info
pub mod Total
pub mod Ends
pub mod Sample
mod Tests

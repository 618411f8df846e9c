-- ===== src/Lib.antt =====
-- Cert Spotter watches Certificate Transparency logs for certificates of the domains on a watch list.
-- For each log it fetches signed tree heads (STHs) and entries, rebuilds the Merkle tree of the
-- entries to hold its root against the STHs, and looks for the watched names in each certificate.
--
-- The files and what they model:
--   Merkletree/Hash, Bits, Collapsed    merkletree/hash.go, merkletree/collapsed_tree.go
--   Merkletree/Fragment                 merkletree/fragment.go
--   Ct/Types, Write, Read               ct/types.go, ct/serialization.go
--   Ct/Signatures                       ct/signatures.go, sct.go
--   Ct/Client, Entries, Retry           ct/client/logclient.go
--   X509/Types, Strings, Time, Parse    x509.go, asn1.go, asn1time.go
--   X509/Info, Canonical                helpers.go (CertInfo), canonicalize.go
--   Precert, Precert/Raw                precerts.go
--   Names/Text, Identifiers, Certificate  identifiers.go
--   Names/Wildcard, Watchlist           helpers.go (MatchesWildcard), monitor/watchlist.go
--   Process                             monitor/process.go
--   Monitor/Run, Log                    monitor/monitor.go (monitorLog)
--   Monitor/Download, Reconstruct       monitor/monitor.go (downloadEntries, reconstructTree)
--   Loglist                             loglist/*.go (schema, validate, helpers, load)
--   Loglist (getLogList)                monitor/loglist.go
--   State/Files, LogFiles               monitor/fileutils.go, monitor/fsstate.go, sthdir.go, statedir.go
-- The other files hold proofs and are named for what they prove; Prelude holds what the parts share,
-- and the Tests of each part run its theorems at concrete inputs.
--
-- Functions keep the names of the Go code in snake case (`add_dns_san` is AddDnsSAN). A Go call
-- that may fail gives a `Result`: a value, an error or a panic. A method that changes its
-- receiver takes the old value and returns the new one; in Monitor/Run, where two positions may
-- be one pointer, the trees stand in a heap. Strings and byte slices are lists of numbers. A
-- uint64 is a natural number and its arithmetic has `% 2 ^ 64` written out; an int64 is an
-- integer, with `wrap_int64` round a sum. A loop over the end of a slice runs over the reversed
-- list.
--
-- Parameters stand for what is not in this repository: SHA-256, the signature schemes and the DER
-- decoder of Go (`Crypto` of Ct/Signatures), case mapping, IDNA and the parsing of IP addresses
-- (`Library` of Names/Text), `asn1.Unmarshal` and `asn1.Marshal` at the types that are used
-- (`Asn1` of X509/Types), and the answers of a log after the HTTP exchange and the JSON decoding.
-- The state provider and the processing of an entry are the `Environment` of Monitor/Run and the
-- `Answers` of Monitor/Log. Package os is the interface `Os` of State/Files with the laws
-- `IsLawful`, which State/Memory fills; a run over it is recorded with every disk that it passes
-- through.
--
-- Fuel: the loop of `read_asn1_cert_list` has one more than the bytes of the list, and that of
-- `parse_san_extension` as many as there are bytes; each round takes at least one byte.
-- `do_and_parse` has eleven for the ten retries, and `download_entries` as much as there are
-- entries in the range; each round that goes on has sent one.
--
-- Not modelled: the String methods of x509.go and its ParseSignatureAlgorithm, the rest of the
-- state directory (its version, its subdirectories, the listing of STHs, the files of
-- certificates), e-mail and scripts, the daemon with its goroutines, the fetching of log lists,
-- net/http under the log client, and the commands. The download, which runs beside monitorLog
-- over a channel, is taken to its end first: a list of entries and how it ended.
pub mod Prelude
pub mod Merkletree
pub mod Ct
pub mod X509
pub mod Precert
pub mod Names
pub mod Process
pub mod Monitor
pub mod State
pub mod Loglist

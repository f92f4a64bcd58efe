-- ===== src/Servers.antt =====
-- The HTTP servers of the repository's own connectors, for data catalogs (connectors/katalog, in
-- Servers/Katalog) and for policy managers (connectors/opa, in Servers/Opa). Parsing a request and
-- writing JSON are parameters.
pub mod Katalog
pub mod Opa
mod Granted
mod Tests
use mesh_for_data.Base.{String, ℕ}

-- What the client gets: the status 200 with a value, or another status with the text of an error. A
-- handler that goes on to index out of range after such an answer has the reply `broken`.
pub data Reply (A : Type 0) : Type 0 where
  answered : A → Reply A
  refused : ℕ → String → Reply A
  broken : ℕ → String → Reply A

abbrev pub bad_request : ℕ
bad_request = 400

abbrev pub internal_server_error : ℕ
internal_server_error = 500

-- ===== src/Tls/Serve.antt =====
-- `serve` of src/tls.rs: the accept loop, and the requests of its connections. What the listener and
-- the handshakes give is the sequence of accepted connections.
pub mod Laws
use indexer_gateway_auth.Prelude.{String, Bool, true, false, Option, List, [], ◌∷◌, ◌++◌, map}
use indexer_gateway_auth.Server.{HttpRequest, Moment}
use indexer_gateway_auth.Tls.{X509Certificate, with_identity}

-- A connection: its peer's address, whether the handshake was done, the certificates that the peer
-- presented, and the requests that follow.
pub record Connection (Cert : Type 0) : Type 0 where
  pub peer : String
  pub handshake : Bool
  pub peer_certificates : Option (List Cert)
  pub requests : List (HttpRequest × Moment)

-- What `select!` gives: a connection, an error of the listener, or the signal to shut down.
pub data Accepted (Cert : Type 0) : Type 0 where
  connection : Connection Cert → Accepted Cert
  accept_error : String → Accepted Cert
  shutdown : Accepted Cert

pub data Outcome : Type 0 where
  listening stopped : Outcome
  failed : String → Outcome

module _ {Cert : Type 0} (from_der : Cert → Option X509Certificate) where
  -- The address and the identity that a connection gives to each of its requests.
  abbrev pub over_connection : Connection Cert → HttpRequest → HttpRequest
  over_connection c req =
      with_identity from_der c.peer_certificates (record req { source_ip = c.peer })

  abbrev pub requests_of : Bool → Connection Cert → List (HttpRequest × Moment)
  requests_of true c = map (λ q. (over_connection c q.0, q.1)) c.requests
  requests_of false c = []

  -- `serve_connection`: the requests that reach the router.
  unfoldable pub serve_connection : Connection Cert → List (HttpRequest × Moment)
  serve_connection c = requests_of c.handshake c

  -- The requests that reach the router, and how the loop ends.
  unfoldable pub serve : List (Accepted Cert) → List (HttpRequest × Moment) × Outcome
  serve [] = ([], listening)
  serve (shutdown ∷ rest) = ([], stopped)
  serve (accept_error e ∷ rest) = ([], failed "accepting TCP connection")
  serve (connection c ∷ rest) =
      let (requests, outcome) = serve rest in (serve_connection c ++ requests, outcome)

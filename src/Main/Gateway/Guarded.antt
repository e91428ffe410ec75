-- ===== src/Main/Gateway/Guarded.antt =====
-- Who can reach an upstream of a gateway that identifies its callers by their certificates.
use indexer_gateway_auth.Prelude.{
  ap, String, ◌≡◌, refl, ◌∙◌, Bool, true, false, Option, some, List, [], ◌∷◌, Memᴰ, map,
}
use indexer_gateway_auth.Prelude.{Result, ok, All}
use indexer_gateway_auth.Config.{Config, AuthMode}
use indexer_gateway_auth.Auth.{Authenticator, mtls_auth}
use indexer_gateway_auth.Auth.Mtls
use indexer_gateway_auth.Auth.Mtls.{ClientCert, Mapping, mapping_of, mapping_principal}
use indexer_gateway_auth.Auth.Mtls.Laws.{FirstMatch}
use indexer_gateway_auth.Auth.Jwt.{JsonWebToken}
use indexer_gateway_auth.Proxy.{UpstreamRequest}
use indexer_gateway_auth.Server.{Deps, HttpRequest, Moment}
use indexer_gateway_auth.Server.Tasks.Schedule.{Event, arrivals, run_schedule, idle}
use indexer_gateway_auth.Server.Tasks.Schedule.Safety.{IsSentFor, run_schedule-mediates}
use indexer_gateway_auth.Main.Laws.{IsBuilt, bearer_built, mtls_built, secret_built, jwks_built}
use indexer_gateway_auth.Main.Gateway.{Process, Gateway, main}
use indexer_gateway_auth.Main.Gateway.Laws.{main-serves}
use indexer_gateway_auth.Tls.{Rustls, X509Certificate}
use indexer_gateway_auth.Tls.Identity.{IsIdentity}
use indexer_gateway_auth.Tls.Serve.{Connection, Accepted, serve}
use indexer_gateway_auth.Tls.Serve.Laws.{IsServed, serve-authn}

All-weaken :
    {A : Type 0} {P Q : A → Type 0} (f : (a : A) → P a → Q a) (xs : List A) → All P xs → All Q xs
All-weaken f [] h = tt
All-weaken f (x ∷ xs) (p, h) = (f x p, All-weaken f xs h)

module _ {Key Jwk Answer : Type 0} (ct_eq : String → String → Bool) (crate : JsonWebToken Key Jwk)
    (get_url : String → Result String Answer) (json : Answer → Result String (List Jwk)) where
  IsBuilt-mtls :
      (config : Config) (auth : Authenticator Key)
      → IsBuilt ct_eq crate get_url json config auth
      → config.auth.mode ≡ AuthMode.mtls
      → auth ≡ mtls_auth (Mtls.new config.auth.mtls)
  IsBuilt-mtls config auth (bearer_built e) h = cc
  IsBuilt-mtls config auth (mtls_built e) h = refl
  IsBuilt-mtls config auth (secret_built section secret e j s) h = cc
  IsBuilt-mtls config auth (jwks_built section url set keys a e j s u f k first) h = cc

module _ {Key Jwk Limiter Answer Cert PrivateKey Roots Verifier ServerConfig : Type 0}
    (deps : Deps Key Jwk Limiter) (process : Process)
    (rustls : Rustls Cert PrivateKey Roots Verifier ServerConfig) (env : String → Option String)
    (read_to_string : String → Result String String) (from_str : String → Result String Config)
    (get_url : String → Result String Answer) (json : Answer → Result String (List Jwk))
    (from_der : Cert → Option X509Certificate) where
  -- The upstream request is that of a request which came over a connection that was accepted and
  -- whose handshake was done; the first certificate of that connection has the identity of a mapping
  -- of the document; and the caller whom the mapping names was authorized for what the request does.
  pub record IsGuarded (g : Gateway Key Limiter ServerConfig) (events : List (Accepted Cert))
      (r : UpstreamRequest) : Type 0 where
    pub origin : Connection Cert
    pub certs : List Cert
    pub id : ClientCert
    pub mapping : Mapping
    pub request : HttpRequest
    pub at : Moment
    pub served : IsServed origin events
    pub handshake : origin.handshake ≡ true
    pub presented : origin.peer_certificates ≡ some certs
    pub identity : IsIdentity from_der certs id
    pub first : FirstMatch id (map mapping_of g.config.auth.mtls) mapping
    pub sent_for : IsSentFor deps g.state request at r
    pub caller : sent_for.principal ≡ mapping_principal mapping

  -- In a process that has started from a document whose callers are known by their certificates and
  -- which does not allow anonymous reading, and whose requests all come over served connections:
  -- however they interleave, every request that reaches an upstream came over a connection which was
  -- accepted and whose handshake was done; the first certificate of that connection has the identity
  -- of a mapping of the document, the first that it matches; and the caller whom this mapping names
  -- was authorized for what the request does.
  pub main-guards :
      (args : List String) (g : Gateway Key Limiter ServerConfig) (events : List (Accepted Cert))
      (es : List Event)
      → main deps process rustls env read_to_string from_str get_url json args ≡ ok g
      → g.config.auth.mode ≡ AuthMode.mtls
      → g.config.auth.allow_anonymous_read ≡ false
      → ((q : HttpRequest × Moment)
          → Memᴰ q (arrivals (run_schedule deps g.state es (idle g.start)).tasks)
          → Memᴰ q (serve from_der events).0)
      → All (IsGuarded g events) (run_schedule deps g.state es (idle g.start)).world.sent
  unfolding Mtls.new
  main-guards args g events es h mode off over =
      let (_, built, _, _, anonymous, _, started, _, _, _, _) =
        main-serves deps process rustls env read_to_string from_str get_url json args g h in
      let auth = IsBuilt-mtls deps.ct_eq deps.crate get_url json g.config _ built mode in
      All-weaken
        (λ r (q, m, sent).
          let (c, certs, id, mapping, served, shaken, presented, identity, first, same, _) =
            serve-authn deps g.state from_der (Mtls.new g.config.auth.mtls) events q.0 q.1
              sent.principal auth (anonymous ∙ off) (over q m) sent.passed.caller in
          record {
            origin = c;
            certs = certs;
            id = id;
            mapping = mapping;
            request = q.0;
            at = q.1;
            served = served;
            handshake = shaken;
            presented = presented;
            identity = identity;
            first = first;
            sent_for = sent;
            caller = same;
          })
        _ (run_schedule-mediates deps g.state es g.start (ap (λ w. w.sent) started))

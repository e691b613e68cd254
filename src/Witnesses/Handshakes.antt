-- ===== src/Witnesses/Handshakes.antt =====
-- internal/hub/hub.go, the stages of a handshake: concrete inputs for the theorems.
use nexus_proxy_server.Common.{
  ℕ, ◌<◌, ◌≡◌, refl, true, false, ltb, ◌&&◌, [], ◌∷◌, none, some, length, arith, lookup, insert,
  delete,
}
use nexus_proxy_server.Claims.{
  port_allowed, normalize_tcp_port_claims, normalize_outbound_port_claims, same_int_sets,
}
use nexus_proxy_server.Claims.Routes.{normalize_udp_route_claims, same_udp_routes}
use nexus_proxy_server.Claims.Reason.{bytes_of}
use nexus_proxy_server.Stages.{
  Config, Claims, Stage0Info, AttestationMetadata, validate_stage0_claims,
  build_metadata_from_claims,
}
use nexus_proxy_server.Stages.Consistent.{build_metadata-validate_stage0}

abbrev sample_config : Config
sample_config = record {
  allowed_tcp_port_claims = 443 ∷ 8443 ∷ [];
  udp = record {
    allowed_udp_port_claims = [];
    default_seconds = 0;
    min_seconds = 0;
    max_seconds = 0;
  };
  allow_outbound = true;
  allowed_outbound_ports = [];
}

-- Port 9 is refused.
abbrev handshake_claims : Claims
handshake_claims = record {
  hostnames = bytes_of "ex.org" ∷ [];
  tcp_ports = 8443 ∷ 9 ∷ 443 ∷ [];
  udp_routes = [];
  outbound_allowed = true;
  allowed_outbound_ports = 25 ∷ [];
  weight = 0;
  session_nonce = [];
  handshake_max_age_seconds = 0;
  issued_at = none;
  reauth_interval_seconds = 0;
  reauth_grace_seconds = 0;
  maintenance_grace_cap_seconds = none;
  authorizer_status_uri = [];
}

abbrev attested_claims : Claims
attested_claims = record handshake_claims {
  tcp_ports = 443 ∷ 8443 ∷ [];
  session_nonce = bytes_of "n1";
  hostnames = bytes_of "EX.org" ∷ [];
}

abbrev sample_info : Stage0Info
sample_info = record {
  hostnames = bytes_of "ex.org" ∷ [];
  tcp_ports = 443 ∷ 8443 ∷ [];
  udp_routes = [];
  weight = 1;
  outbound_allowed = true;
  allowed_outbound_ports = 25 ∷ [];
  outbound_ports_explicit = true;
}

abbrev sample_metadata : AttestationMetadata
sample_metadata = record {
  granted = sample_info;
  reauth_interval = 0;
  reauth_grace = 0;
  maintenance_cap = none;
  rejected = [];
  truncated = false;
}

build_metadata-validate_stage0_example :
    (attested_claims.session_nonce ≡ bytes_of "n1")
    × ((q : ℕ)
        → (port_allowed attested_claims.tcp_ports q
            && port_allowed sample_config.allowed_tcp_port_claims q)
          ≡ (port_allowed handshake_claims.tcp_ports q
              && port_allowed sample_config.allowed_tcp_port_claims q))
    × (attested_claims.outbound_allowed ≡ handshake_claims.outbound_allowed)
    × (ltb 0 (length attested_claims.allowed_outbound_ports)
        ≡ ltb 0 (length handshake_claims.allowed_outbound_ports))
    × (sample_metadata.granted ≡ sample_info)
    × (0 < sample_metadata.granted.weight)
unfolding validate_stage0_claims build_metadata_from_claims lookup insert delete
    normalize_tcp_port_claims normalize_udp_route_claims normalize_outbound_port_claims
    same_int_sets same_udp_routes
build_metadata-validate_stage0_example =
    build_metadata-validate_stage0 some (λ uri. true) sample_config 0 handshake_claims
      attested_claims sample_info (bytes_of "n1") sample_metadata (omega arith) refl refl

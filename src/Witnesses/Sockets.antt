-- ===== src/Witnesses/Sockets.antt =====
-- client/socks5.go: concrete inputs for the theorems.
use nexus_proxy_server.Common.{◌≡◌, refl, true, Bytes, [], ◌∷◌, ◌++◌, if◌then◌else◌, arith}
use nexus_proxy_server.Hostnames.{contains}
use nexus_proxy_server.Claims.Reason.{bytes_of}
use nexus_proxy_server.Socks.{
  done, failed, no_supported_method, socks5_version, socks5_auth_none, socks5_auth_no_accpt,
}
use nexus_proxy_server.Socks.Session.{
  domain, is_target, offer, request, host_of, session, session-request,
}

-- Addresses shown as they are.
abbrev raw_text : Bytes → Bytes
raw_text a = a

-- "ex.org" at port 443, for a client that can also give a name and a password.
session-request_example :
    session raw_text true
      (offer (2 ∷ 0 ∷ []) ++ (request 0 (domain (bytes_of "ex.org")) 443 ++ (22 ∷ [])))
    ≡ (if contains socks5_auth_none (2 ∷ 0 ∷ [])
        then record {
          sent = socks5_version ∷ socks5_auth_none ∷ [];
          result = done (host_of raw_text (domain (bytes_of "ex.org")), 443) (22 ∷ []);
        }
        else record {
          sent = socks5_version ∷ socks5_auth_no_accpt ∷ [];
          result = failed no_supported_method;
        })
unfolding is_target
session-request_example =
    session-request raw_text (2 ∷ 0 ∷ []) 0 (domain (bytes_of "ex.org")) 443 (22 ∷ []) (omega arith)
      refl

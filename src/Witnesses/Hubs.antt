-- ===== src/Witnesses/Hubs.antt =====
-- internal/hub/hub.go, the pools of the hub: concrete inputs for the theorems.
use nexus_proxy_server.Common.{◌≡◌, Bytes, [], ◌∷◌, Option, some, none}
use nexus_proxy_server.Claims.Reason.{bytes_of}
use nexus_proxy_server.Registry.{
  HubBackend, Hub, exact, new_hub, register_backend, unregister_backend,
}
use nexus_proxy_server.Registry.Slots.{times, at}
use nexus_proxy_server.Registry.Registered.{Reach, start, joins, leaves, claims, Reach-times}

abbrev ascii_only : Bytes → Option Bytes
ascii_only h = some h

abbrev web_backend : HubBackend
web_backend = record {
  entry = record { id = 1; weight = 2 };
  hostnames = bytes_of "a.b" ∷ bytes_of "*.b.c" ∷ [];
  tcp_ports = 443 ∷ [];
  udp_routes = [];
}

abbrev mail_backend : HubBackend
mail_backend = record {
  entry = record { id = 2; weight = 1 };
  hostnames = bytes_of "a.b" ∷ [];
  tcp_ports = [];
  udp_routes = record { port = 53; flow_idle_timeout = 30 } ∷ [];
}

-- Both join, and the first leaves.
abbrev sample_hub : Hub
sample_hub = unregister_backend ascii_only web_backend (
    register_backend ascii_only 2 mail_backend
      (register_backend ascii_only 1 web_backend (new_hub none)))

sample_hub_reached : Reach ascii_only (mail_backend ∷ []) sample_hub
sample_hub_reached =
    leaves (mail_backend ∷ []) web_backend []
      (joins 2 mail_backend (joins 1 web_backend (start none)))

Reach-times_example :
    times 2 (at (exact (bytes_of "a.b")) sample_hub)
    ≡ claims ascii_only 2 (exact (bytes_of "a.b")) (mail_backend ∷ [])
Reach-times_example = Reach-times ascii_only 2 (exact (bytes_of "a.b")) sample_hub_reached

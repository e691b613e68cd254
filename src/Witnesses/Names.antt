-- ===== src/Witnesses/Names.antt =====
-- hostnames/hostnames.go: concrete inputs for the theorems.
use nexus_proxy_server.Common.{◌≡◌, true, Bytes, [], ◌∷◌, some, ◌↔◌}
use nexus_proxy_server.Hostnames.{dot_suffix, matches_wildcard}
use nexus_proxy_server.Hostnames.Wildcard.{
  IsLabelBefore, dot_suffix_iff, matches_wildcard_iff, dot_suffix-matches_wildcard,
}

-- "a.b.c" and "b.c".
abbrev sample_host : Bytes
sample_host = b'a' ∷ b'.' ∷ b'b' ∷ b'.' ∷ b'c' ∷ []

abbrev sample_rest : Bytes
sample_rest = b'b' ∷ b'.' ∷ b'c' ∷ []

dot_suffix_iff_example :
    (dot_suffix sample_host ≡ some (b'.' ∷ sample_rest))
    ↔ IsLabelBefore sample_host (b'.' ∷ sample_rest)
dot_suffix_iff_example = dot_suffix_iff sample_host sample_rest

matches_wildcard_iff_example :
    (matches_wildcard sample_host (b'.' ∷ sample_rest) ≡ true)
    ↔ IsLabelBefore sample_host (b'.' ∷ sample_rest)
matches_wildcard_iff_example = matches_wildcard_iff sample_host (b'.' ∷ sample_rest)

dot_suffix-matches_wildcard_example :
    (dot_suffix sample_host ≡ some (b'.' ∷ sample_rest))
    ↔ (matches_wildcard sample_host (b'.' ∷ sample_rest) ≡ true)
dot_suffix-matches_wildcard_example = dot_suffix-matches_wildcard sample_host sample_rest

-- ===== src/Hostnames/Wildcard.antt =====
-- hostnames/hostnames.go, client/config.go: a wildcard matches one label, on the server as on the
-- client.
use nexus_proxy_server.Common.{
  ℕ, zero, suc, ◌-◌, ◌<◌, ◌≡◌, ◌≢◌, ◌↔◌, refl, sym, ap, ◌∙◌, true, false, ◌==◌, Bytes, [], ◌∷◌,
  ◌++◌, some, length, take, drop, nat_eq, bytes_eq, bytes_beq_iff, bytes_beq_refl, arith,
  Bool-cases, Option-cases, inl, inr, length-append, take-append-drop,
}
use nexus_proxy_server.Hostnames.Text.{contains, index}
use nexus_proxy_server.Hostnames.Names.{dot_suffix, matches_wildcard}

-- `host` is one label, not empty and with no dot, before `suffix`.
pub record IsLabelBefore (host suffix : Bytes) : Type 0 where
  pub label : Bytes
  pub split : host ≡ label ++ suffix
  pub full : label ≢ []
  pub plain : contains b'.' label ≡ false

pub take-append : (xs ys : Bytes) → take (length xs) (xs ++ ys) ≡ xs
take-append [] ys = refl
take-append (x ∷ xs) ys = ap (λ r. x ∷ r) (take-append xs ys)

pub drop-append : (xs ys : Bytes) → drop (length xs) (xs ++ ys) ≡ ys
drop-append [] ys = refl
drop-append (x ∷ xs) ys = drop-append xs ys

pub index-append :
    (c : ℕ) (xs ys : Bytes) → contains c xs ≡ false → index c (xs ++ c ∷ ys) ≡ some (length xs)
unfolding index contains
index-append c [] ys h = ground arith
index-append c (x ∷ xs) ys h = ground (arith, index-append c xs ys)

-- The first occurrence has none before it, and stands where it is said to be.
index_split :
    (c : ℕ) (xs : Bytes) (i : ℕ)
    → index c xs ≡ some i
    → (contains c (take i xs) ≡ false) × (length (take i xs) ≡ i)
unfolding index contains
index_split c [] i h = cc
index_split c (x ∷ xs) zero h = (refl, refl)
index_split c (x ∷ xs) (suc i) h = elim (Option-cases (index c xs)) [
  | inl gone ↦ ground (arith, gone)
  | inr (j, found) ↦ ground (arith, found, index_split c xs i)
]

index_at : (c : ℕ) (xs : Bytes) (i : ℕ) → index c xs ≡ some i → drop i xs ≡ c ∷ drop (suc i) xs
unfolding index
index_at c [] i h = cc
index_at c (x ∷ xs) zero h = elim (Bool-cases (x == c)) [
  | inl here ↦ ground (arith, here)
  | inr later ↦ ground (arith, later)
]
index_at c (x ∷ xs) (suc i) h = elim (Option-cases (index c xs)) [
  | inl gone ↦ ground (arith, gone)
  | inr (j, found) ↦ ground (arith, found, index_at c xs i)
]

dot_suffix-append :
    (label rest : Bytes)
    → label ≢ []
    → contains b'.' label ≡ false
    → dot_suffix (label ++ b'.' ∷ rest) ≡ some (b'.' ∷ rest)
unfolding dot_suffix
dot_suffix-append [] rest full plain = absurd (full refl)
dot_suffix-append (x ∷ xs) rest full plain =
    ground (arith, index-append b'.' (x ∷ xs) rest plain, drop-append (x ∷ xs) (b'.' ∷ rest))

-- `FirstDotSuffix` after normalization: it finds `suffix`, which begins with a dot, exactly if one
-- label stands before it.
pub dot_suffix_iff :
    (host rest : Bytes) → (dot_suffix host ≡ some (b'.' ∷ rest)) ↔ IsLabelBefore host (b'.' ∷ rest)
unfolding dot_suffix
dot_suffix_iff host rest = (there, back)
  where
    there : dot_suffix host ≡ some (b'.' ∷ rest) → IsLabelBefore host (b'.' ∷ rest)
    there h = elim (Option-cases (index b'.' host)) [
      | inl gone ↦ ground (arith, gone)
      | inr (i, found) ↦
          let (plain, len) = index_split b'.' host i found in
          let e : (0 < i) × (drop i host ≡ b'.' ∷ rest) = ground (arith, found) in
          record {
            label = take i host;
            split = sym (take-append-drop i host) ∙ ap (λ r. take i host ++ r) e.1;
            full = λ z. omega (arith, e.0, len, ap length z);
            plain = plain;
          }
    ]

    back : IsLabelBefore host (b'.' ∷ rest) → dot_suffix host ≡ some (b'.' ∷ rest)
    back l = rw l.split (dot_suffix-append l.label rest l.full l.plain)

matches_wildcard-append :
    (label suffix : Bytes)
    → label ≢ []
    → contains b'.' label ≡ false
    → matches_wildcard (label ++ suffix) suffix ≡ true
unfolding matches_wildcard
matches_wildcard-append [] suffix full plain = absurd (full refl)
matches_wildcard-append (x ∷ xs) suffix full plain =
    let e : length ((x ∷ xs) ++ suffix) - length suffix ≡ length (x ∷ xs) =
      omega (arith, length-append (x ∷ xs) suffix) in
    let n = length-append (x ∷ xs) suffix in
    rw e (ground (arith, n, take-append xs suffix, drop-append xs suffix, bytes_beq_refl suffix))

-- `matchesWildcard` of the client: it accepts a host exactly if one label stands before the suffix.
pub matches_wildcard_iff :
    (host suffix : Bytes) → (matches_wildcard host suffix ≡ true) ↔ IsLabelBefore host suffix
unfolding matches_wildcard
matches_wildcard_iff host suffix = (
  λ h.
      let n = length host - length suffix in
      let parts : (drop n host ≡ suffix)
          × (take n host ≢ [])
          × (contains b'.' (take n host) ≡ false) =
        ground (arith, bytes_beq_iff (drop n host) suffix, bytes_beq_iff (take n host) []) in
      record {
        label = take n host;
        split = sym (take-append-drop n host) ∙ ap (λ r. take n host ++ r) parts.0;
        full = parts.1;
        plain = parts.2;
      },
  λ l. rw l.split (matches_wildcard-append l.label suffix l.full l.plain),
)

-- The server routes a normalized host to the wildcard pool of a suffix exactly if the client's port
-- mapping sends it to the wildcard target of that suffix.
pub dot_suffix-matches_wildcard :
    (host rest : Bytes)
    → (dot_suffix host ≡ some (b'.' ∷ rest)) ↔ (matches_wildcard host (b'.' ∷ rest) ≡ true)
dot_suffix-matches_wildcard host rest =
    let server = dot_suffix_iff host rest in
    let client = matches_wildcard_iff host (b'.' ∷ rest) in
    (λ h. client.1 (server.0 h), λ h. server.1 (client.0 h))

-- ===== src/Claims/Split.antt =====
-- client/client.go, `parsePolicyCloseReason`: splitting a text that was joined by commas.
use mathlib.Core.List.{append_assoc, append-nil}
use nexus_proxy_server.Common.{
  ℕ, zero, suc, ◌+◌, ◌-◌, ◌≤◌, ◌≡◌, refl, sym, ap, ◌∙◌, true, false, ◌==◌, nat_eq, bytes_eq,
  bytes_beq_sound, bytes_beq_refl, Bytes, List, [], ◌∷◌, ◌++◌, length, drop, length-append, arith,
  Bool-cases, inl, inr,
}
use nexus_proxy_server.Hostnames.{contains, has_suffix, trim_suffix}
use nexus_proxy_server.Hostnames.Wildcard.{take-append, drop-append}
use nexus_proxy_server.Claims.Parse.{split, onto}

-- What a comma-separated list has after its first entry.
unfoldable pub tails : List Bytes → Bytes
tails [] = []
tails (e ∷ es) = b',' ∷ (e ++ tails es)

pub tails-append : (es fs : List Bytes) → tails (es ++ fs) ≡ tails es ++ tails fs
unfolding tails
tails-append [] fs = refl
tails-append (e ∷ es) fs =
    ap (λ t. b',' ∷ (e ++ t)) (tails-append es fs)
    ∙ ap (λ t. b',' ∷ t) (sym (append_assoc e (tails es) (tails fs)))

-- Entries that have no comma and are not shorter than the tail.
abbrev pub Plain : List Bytes → Type 0
Plain [] = Unit {0}
Plain (e ∷ es) = (contains b',' e ≡ false) × (4 ≤ length e) × Plain es

split-contains : (xs : Bytes) → contains b',' xs ≡ false → split b',' xs ≡ xs ∷ []
unfolding split onto contains
split-contains [] h = refl
split-contains (x ∷ xs) h = elim (Bool-cases (x == b',')) [
  | inl e ↦ absurd (ground (arith, e, h))
  | inr e ↦ ground (arith, e, h, split-contains xs)
]

split-append :
    (xs ys : Bytes) → contains b',' xs ≡ false → split b',' (xs ++ b',' ∷ ys) ≡ xs ∷ split b',' ys
unfolding split onto contains
split-append [] ys h = refl
split-append (x ∷ xs) ys h = elim (Bool-cases (x == b',')) [
  | inl e ↦ absurd (ground (arith, e, h))
  | inr e ↦ ground (arith, e, h, split-append xs ys)
]

-- `strings.Split` gives back the entries.
pub split-tails :
    (e : Bytes) (es : List Bytes) → Plain (e ∷ es) → split b',' (e ++ tails es) ≡ e ∷ es
unfolding tails
split-tails e [] h = ap (split b',') (append-nil e) ∙ split-contains e h.0
split-tails e (f ∷ es) h =
    split-append e (f ++ tails es) h.0 ∙ ap (λ r. e ∷ r) (split-tails f es h.2)

-- A joined text ends in an entry.
last_entry :
    (e : Bytes) (es : List Bytes)
    → Plain (e ∷ es)
    → (front last : Bytes) × (e ++ tails es ≡ front ++ last)
      × (contains b',' last ≡ false)
      × (4 ≤ length last)
unfolding tails
last_entry e [] h = ([], e, append-nil e, h.0, h.1)
last_entry e (f ∷ es) h =
    let (front, last, same, plain, long) = last_entry f es h.2 in
    (
      e ++ (b',' ∷ front),
      last,
      ap (λ t. e ++ (b',' ∷ t)) same ∙ sym (append_assoc e (b',' ∷ front) last),
      plain,
      long,
    )

contains-drop : (n : ℕ) (xs : Bytes) → contains b',' xs ≡ false → contains b',' (drop n xs) ≡ false
unfolding contains
contains-drop zero xs h = h
contains-drop (suc n) [] h = h
contains-drop (suc n) (x ∷ xs) h = contains-drop n xs (ground (arith, h))

pub drop-front : (xs ys : Bytes) (n : ℕ) → drop (length xs + n) (xs ++ ys) ≡ drop n ys
drop-front [] ys n = let same : 0 + n ≡ n = omega arith in ap (λ k. drop k ys) same
drop-front (x ∷ xs) ys n =
    let same : suc (length xs) + n ≡ suc (length xs + n) = omega arith in
    ap (λ k. drop k (x ∷ (xs ++ ys))) same ∙ drop-front xs ys n

-- A joined text does not end in the truncation tail, nor in anything of its length with a comma.
pub has_suffix-tails :
    (e tail : Bytes) (es : List Bytes)
    → Plain (e ∷ es)
    → length tail ≡ 4
    → contains b',' tail ≡ true
    → has_suffix (e ++ tails es) tail ≡ false
unfolding has_suffix
has_suffix-tails e tail es h four comma =
    let (front, last, same, plain, long) = last_entry e es h in
    let text = e ++ tails es in
    elim (Bool-cases (drop (length text - length tail) text == tail)) [
      | inr other ↦ ground (arith, other)
      | inl ends ↦
          let place : length text - length tail ≡ length front + (length last - 4) =
            omega (arith, ap length same, length-append front last) in
          let at_last : drop (length text - length tail) text ≡ drop (length last - 4) last =
            ap (λ n. drop n text) place
            ∙ ap (drop (length front + (length last - 4))) same
            ∙ drop-front front last (length last - 4) in
          let none_there = contains-drop (length last - 4) last plain in
          let end = bytes_beq_sound (drop (length text - length tail) text) tail ends in
          absurd (ground (arith, comma, none_there, ap (contains b',') (sym at_last ∙ end)))
    ]

-- A text with the truncation tail put on has it, and is the text again without it.
pub has_suffix-append : (xs tail : Bytes) → has_suffix (xs ++ tail) tail ≡ true
unfolding has_suffix
has_suffix-append xs tail =
    let place : length (xs ++ tail) - length tail ≡ length xs =
      omega (arith, length-append xs tail) in
    let end = drop-append xs tail in
    ground (arith, place, end, bytes_beq_refl tail, length-append xs tail)

pub trim_suffix-append : (xs tail : Bytes) → trim_suffix (xs ++ tail) tail ≡ xs
unfolding trim_suffix
trim_suffix-append xs tail =
    let place : length (xs ++ tail) - length tail ≡ length xs =
      omega (arith, length-append xs tail) in
    rw (trim_suffix, has_suffix-append xs tail, place) (take-append xs tail)

pub trim_suffix-none : (xs tail : Bytes) → has_suffix xs tail ≡ false → trim_suffix xs tail ≡ xs
unfolding trim_suffix
trim_suffix-none xs tail h = rw (trim_suffix, h) refl

-- ===== src/Claims/Rejected.antt =====
-- internal/hub/hub.go: the list of refused claims holds the first refusals up to its bound, and
-- `truncated` tells whether an entry was left out.
use mathlib.Core.List.{append-nil}
use nexus_proxy_server.Common.{
  ℕ, zero, suc, ◌≤◌, ◌<◌, ◌≡◌, refl, sym, ap, ◌∙◌, Bool, true, false, if◌then◌else◌, ltb, leb, List,
  [], ◌∷◌, ◌++◌, length, length-append, length-take, take, arith, min, Bool-cases, inl, inr,
}
use nexus_proxy_server.Claims.Entries.{RejectedClaim, rejected_list_bound, append_rejected}
use nexus_proxy_server.Claims.Ports.{refuse_port}

-- Of all refusals, in their order, the list holds the first ones, up to the bound.
pub record Holds (all rejected : List RejectedClaim) (truncated : Bool) : Type 0 where
  pub kept : rejected ≡ take rejected_list_bound all
  pub flag : truncated ≡ ltb rejected_list_bound (length all)

pub no_refusal : Holds [] [] false
no_refusal = record { kept = refl; flag = refl }

take-append_full :
    {A : Type 0} (n : ℕ) (xs ys : List A) → n ≤ length xs → take n (xs ++ ys) ≡ take n xs
take-append_full zero xs ys h = refl
take-append_full (suc n) [] ys h = absurd (omega arith)
take-append_full (suc n) (x ∷ xs) ys h = ap (λ ts. x ∷ ts) (take-append_full n xs ys (omega arith))

take-append_room :
    {A : Type 0} (n : ℕ) (xs : List A) (y : A)
    → length xs < n
    → take n (xs ++ (y ∷ [])) ≡ take n xs ++ (y ∷ [])
take-append_room zero xs y h = absurd (omega arith)
take-append_room (suc zero) [] y h = refl
take-append_room (suc (suc n)) [] y h = refl
take-append_room (suc n) (x ∷ xs) y h = ap (λ ts. x ∷ ts) (take-append_room n xs y (omega arith))

-- The refusal that a claim adds.
abbrev pub refusal_of : Bool → RejectedClaim → List RejectedClaim
refusal_of allowed entry = if allowed then [] else entry ∷ []

appended :
    (n : ℕ) (entry : RejectedClaim) (all rejected : List RejectedClaim) (truncated : Bool)
    → rejected ≡ take n all
    → truncated ≡ ltb n (length all)
    → let full = leb n (length rejected) in
      ((if full then rejected else rejected ++ (entry ∷ [])) ≡ take n (all ++ (entry ∷ [])))
      × ((if full then true else truncated) ≡ ltb n (length (all ++ (entry ∷ []))))
appended n entry all rejected truncated kept flag =
    let size : length rejected ≡ min n (length all) = ap length kept ∙ length-take n all in
    elim (Bool-cases (leb n (length rejected))) [
      | inl full ↦ rw full (
        kept ∙ sym (take-append_full n all (entry ∷ []) (ground (arith, size, full))),
        ground (arith, size, full, length-append all (entry ∷ [])),
      )
      | inr room ↦ rw room (
        ap (λ ts. ts ++ (entry ∷ [])) kept
            ∙ sym (take-append_room n all entry (ground (arith, size, room))),
        ground (arith, size, room, flag, length-append all (entry ∷ [])),
      )
    ]

append_rejected-Holds :
    (entry : RejectedClaim) (all rejected : List RejectedClaim) (truncated : Bool)
    → Holds all rejected truncated
    → Holds
        (all ++ (entry ∷ []))
        (append_rejected rejected truncated entry).0
        (append_rejected rejected truncated entry).1
unfolding append_rejected
append_rejected-Holds entry all rejected truncated h =
    let (kept, flag) = appended rejected_list_bound entry all rejected truncated h.kept h.flag in
    elim (Bool-cases (leb rejected_list_bound (length rejected))) [
      | inl full ↦ rw full (record { kept = rw full at kept; flag = rw full at flag })
      | inr room ↦ rw room (record { kept = rw room at kept; flag = rw room at flag })
    ]

pub refuse_port-Holds :
    (allowed : Bool) (entry : RejectedClaim) (all rejected : List RejectedClaim) (truncated : Bool)
    → Holds all rejected truncated
    → let (rejected', truncated') = refuse_port allowed entry rejected truncated in
      Holds (all ++ refusal_of allowed entry) rejected' truncated'
unfolding refuse_port
refuse_port-Holds true entry all rejected truncated h = rw append-nil h
refuse_port-Holds false entry all rejected truncated h =
    append_rejected-Holds entry all rejected truncated h

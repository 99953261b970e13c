-- ===== src/Orders/Tags/Laws.antt =====
-- Which tag lists are accepted.
use ibkr_go.Prelude.{
  ℕ, ◌+◌, String, ◌≡◌, refl, ◌≢◌, ◌↔◌, false, none, List, [], ◌∷◌, map, arith, All, trim_space,
  is_empty, is_one_of, eq_iff,
}
use ibkr_go.Orders.Types.{TagValue}
use ibkr_go.Orders.Tags.{tags_from, validate_tag_values}

-- No two of the texts are equal.
abbrev pub Distinct : List String → Type 0
Distinct [] = Unit {0}
Distinct (t ∷ ts) = All (λ u. t ≢ u) ts × Distinct ts

abbrev pub trimmed_tags : List TagValue → List String
trimmed_tags = map (λ v. trim_space v.tag)

abbrev NotIn : List String → String → Type 0
NotIn seen t = is_one_of t seen ≡ false

is_one_of-cons_false :
    (t u : String) (seen : List String)
    → (is_one_of t (u ∷ seen) ≡ false) ↔ ((u ≢ t) × NotIn seen t)
is_one_of-cons_false t u seen = (λ h. ground (arith, eq_iff t u), λ h. ground (arith, eq_iff t u))

NotIn-cons :
    (u : String) (seen ts : List String)
    → All (NotIn (u ∷ seen)) ts ↔ (All (λ t. u ≢ t) ts × All (NotIn seen) ts)
NotIn-cons u seen [] = (λ h. (tt, tt), λ h. tt)
NotIn-cons u seen (t ∷ ts) =
    let (there, back) = NotIn-cons u seen ts in
    let (split, join) = is_one_of-cons_false t u seen in
    (
      λ h. ((((split h.0).0), (there h.1).0), ((split h.0).1, (there h.1).1)),
      λ h. (join (h.0.0, h.1.0), back (h.0.1, h.1.1)),
    )

abbrev Accepts : List String → List TagValue → Type 0
Accepts seen vs =
    All (λ t. is_empty t ≡ false) (trimmed_tags vs)
    × Distinct (trimmed_tags vs)
    × All (NotIn seen) (trimmed_tags vs)

tags_from-none :
    (field : String) (i : ℕ) (seen : List String) (vs : List TagValue)
    → tags_from field i seen vs ≡ none
    → Accepts seen vs
unfolding tags_from
tags_from-none field i seen [] h = (tt, tt, tt)
tags_from-none field i seen (v ∷ vs) h =
    let (full, apart, fresh) =
      tags_from-none field (i + 1) (trim_space v.tag ∷ seen) vs (ground arith) in
    let (differs, unseen) = (NotIn-cons (trim_space v.tag) seen (trimmed_tags vs)).0 fresh in
    ((ground arith, full), (differs, apart), (ground arith, unseen))

tags_from-Accepts :
    (field : String) (i : ℕ) (seen : List String) (vs : List TagValue)
    → Accepts seen vs
    → tags_from field i seen vs ≡ none
unfolding tags_from
tags_from-Accepts field i seen [] h = refl
tags_from-Accepts field i seen (v ∷ vs) h =
    let fresh = (NotIn-cons (trim_space v.tag) seen (trimmed_tags vs)).1 (h.1.0, h.2.1) in
    ground
      (arith, tags_from-Accepts field (i + 1) (trim_space v.tag ∷ seen) vs (h.0.1, h.1.1, fresh))

NotIn-nil : (ts : List String) → All (NotIn []) ts
NotIn-nil [] = tt
NotIn-nil (t ∷ ts) = (refl, NotIn-nil ts)

-- A list of tag values is accepted exactly if no tag is blank and no two tags are equal after
-- trimming.
pub validate_tag_values_iff :
    (field : String) (vs : List TagValue)
    → (validate_tag_values field vs ≡ none)
      ↔ (All (λ t. is_empty t ≡ false) (trimmed_tags vs) × Distinct (trimmed_tags vs))
unfolding validate_tag_values
validate_tag_values_iff field vs = (
  λ h. let a = tags_from-none field 0 [] vs h in (a.0, a.1),
  λ h. tags_from-Accepts field 0 [] vs (h.0, h.1, NotIn-nil (trimmed_tags vs)),
)

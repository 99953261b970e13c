-- ===== src/Orders/Tags.antt =====
-- validateTagValues of order_validation.go: tags are set and differ.
pub mod Laws
use ibkr_go.Prelude.{
  ℕ, zero, suc, ◌+◌, ◌-◌, ◌*◌, ◌/◌, ◌%◌, ◌^◌, ◌≤◌, ◌<◌, max, ℤ, pos, negsuc, ltz, is_negative,
  String, ◌≡◌, refl, sym, ap, ◌∙◌, subst, ◌≢◌, ◌↔◌, ◌⊎◌, inl, inr, Bool, true, false, not, ◌&&◌,
  ◌||◌, Option, none, some, List, [], ◌∷◌, ◌++◌, map, append_assoc, append-nil, arith, ltb, leb,
  ◌==◌, if◌then◌else◌, ltb→lt, lt→ltb, le→ltb, ==_iff, Bool-cases, Option-cases, if_both,
  or_else_both, Memᴰ, any-mem, all-mem, length, take, drop, length-append, take-append-drop,
  length-take, length-drop, take-append_left, drop-append_left, all, any, All, Result, ok, err,
  ◌>>◌, reject, is_space, trim_space, is_empty, is_blank, is_one_of, str_eq, eq_iff,
}
use ibkr_go.Orders.Types.{TagValue, OrderError, invalid, element}

-- The loop, with the trimmed tags seen so far and the index of the next.
unfoldable pub tags_from : String → ℕ → List String → List TagValue → Option OrderError
tags_from field i seen [] = none
tags_from field i seen (v ∷ vs) =
    let tag = trim_space v.tag in
    reject (is_empty tag) (invalid (element field i ".Tag") "is required")
    >> reject (is_one_of tag seen) (invalid (element field i ".Tag") "must be unique")
    >> tags_from field (i + 1) (tag ∷ seen) vs

unfoldable pub validate_tag_values : String → List TagValue → Option OrderError
validate_tag_values field values = tags_from field 0 [] values

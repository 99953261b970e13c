-- ===== src/Prelude/Texts.antt =====
-- Go strings that are compared and trimmed: native texts.
use Prim.Native.Nat.{ℕ}
use Prim.Native.Char.{code}
use Prim.Native.String.{String}
use mathlib.Core.Path.{◌≡◌, refl}
use mathlib.Core.Logic.{inl, inr}
use native.Mathlib.Omega.{arith}
use mathlib.Core.Bool.{Bool, true, false, ◌&&◌, ◌||◌}
use mathlib.Core.List.{List, [], ◌∷◌, Memᴰ}
use text.Mathlib.Text.{◌==◌ as str_eq}
use text.Mathlib.TextEquality.{eq_iff}
use ibkr_go.Prelude.Tests.{leb, ◌==◌, if◌then◌else◌, Bool-cases}
use ibkr_go.Prelude.Lists.{any}

-- unicode.IsSpace
unfoldable pub is_space : ℕ → Bool
is_space c =
    (leb 9 c && leb c 13)
    || ((c == 32)
        || ((c == 0x85)
            || ((c == 0xa0)
                || ((c == 0x1680)
                    || ((leb 0x2000 c && leb c 0x200a)
                        || ((c == 0x2028)
                            || ((c == 0x2029)
                                || ((c == 0x202f) || ((c == 0x205f) || (c == 0x3000))))))))))

unfoldable pub trim_left : String → String
unfolding is_space
trim_left String.[] = String.[]
trim_left (String.◌∷◌ c s) = if is_space (code c) then trim_left s else String.◌∷◌ c s

abbrev pub is_empty : String → Bool
is_empty String.[] = true
is_empty (String.◌∷◌ c s) = false

unfoldable pub trim_right : String → String
unfolding is_space
trim_right String.[] = String.[]
trim_right (String.◌∷◌ c s) =
    let r = trim_right s in if is_empty r && is_space (code c) then String.[] else String.◌∷◌ c r

-- strings.TrimSpace
unfoldable pub trim_space : String → String
unfolding trim_left trim_right
trim_space s = trim_right (trim_left s)

-- strings.TrimSpace(s) == ""
abbrev pub is_blank : String → Bool
is_blank s = is_empty (trim_space s)

-- The `case` of a `switch` on a string that lists these texts.
abbrev pub is_one_of : String → List String → Bool
is_one_of s ts = any (λ t. str_eq s t) ts

pub is_blank-is_empty : (s : String) → is_blank s ≡ false → is_empty s ≡ false
unfolding trim_space trim_left trim_right
is_blank-is_empty String.[] h = ground arith
is_blank-is_empty (String.◌∷◌ c s) h = refl

pub is_one_of-mem : (s : String) (ts : List String) → is_one_of s ts ≡ true → Memᴰ s ts
is_one_of-mem s [] h = ground arith
is_one_of-mem s (t ∷ ts) h = elim (Bool-cases (str_eq s t)) [
  | inl e ↦ Memᴰ.head ((eq_iff s t).0 e)
  | inr e ↦ Memᴰ.tail (is_one_of-mem s ts (let h' = rw e at h in h'))
]

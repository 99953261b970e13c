-- ===== src/Codec/Reader.antt =====
-- internal/codec/decoder.go: reading fields from the bytes of a body. A text is the list of its
-- bytes, and an error keeps what its text prints, less the wrapped cause.
pub mod Refine
pub mod Bounds
use ibkr_go.Prelude.{
  ℕ, zero, suc, ◌+◌, ◌-◌, ◌*◌, ◌/◌, ◌%◌, ◌^◌, ◌≤◌, ◌<◌, max, ℤ, pos, negsuc, ltz, is_negative,
  int_eq, int_eq-eq, String, string_append, ◌≡◌, refl, sym, ap, fun_ext, ◌∙◌, subst, ◌≢◌, ◌↔◌, ◌⊎◌,
  inl, inr, Bool, true, false, not, ◌&&◌, ◌||◌, Option, none, some, List, [], ◌∷◌, ◌++◌, map,
  append_assoc, append-nil, arith, ltb, leb, ◌==◌, if◌then◌else◌, ltb→lt, lt→ltb, le→ltb, ==_iff,
  Bool-cases, Option-cases, if_both, if_cases, or_else_both, Memᴰ, any-mem, all-mem, length, take,
  drop, length-append, take-append-drop, length-take, length-drop, take-append_left,
  drop-append_left, all, any, All, Result, ok, err, ◌>>◌, reject, is_space, trim_space, is_empty,
  is_blank, is_one_of, is_blank-is_empty, is_one_of-mem, str_eq, eq_iff,
}
use ibkr_go.Wire.Fields.{Bytes}
use ibkr_go.Codec.Numbers.{parse_int}

pub data FieldError : Type 0 where
  missing_field unterminated_field : ℕ → FieldError
  bad_int bad_int64 bad_bool : ℕ → Bytes → FieldError
  missing_count empty_count : ℕ → String → FieldError
  bad_count : ℕ → String → Bytes → FieldError
  negative_count : ℕ → String → ℤ → FieldError
  excess_count : ℕ → String → ℤ → ℕ → FieldError
  excess_list : String → ℕ → ℕ → FieldError
  invalid_entry_width : String → ℕ → FieldError
  few_trailing_fields : String → ℕ → ℕ → FieldError
  excess_entries : String → ℤ → ℕ → ℕ → ℕ → FieldError

pub record FieldReader : Type 0 where
  pub buf : Bytes
  pub off : ℕ
  pub pos : ℕ
  pub total : ℕ
  pub err : Option FieldError

-- bytes.Count(buf, nulSep)
unfoldable pub count_nul : Bytes → ℕ
count_nul [] = 0
count_nul (b ∷ bs) = if b == 0 then 1 + count_nul bs else count_nul bs

unfoldable pub new_field_reader_bytes : Bytes → FieldReader
new_field_reader_bytes buf = record {
  buf = buf;
  off = 0;
  pos = 0;
  total = count_nul buf;
  err = none;
}

-- bytes.IndexByte(bs, 0)
unfoldable pub index_nul : Bytes → Option ℕ
index_nul [] = none
index_nul (b ∷ bs) =
    if b == 0 then some 0 else elim (index_nul bs) [ none ↦ none | some i ↦ some (i + 1) ]

-- setErr, with an error that is not nil
unfoldable pub set_err : FieldError → FieldReader → FieldReader
set_err e r = elim r.err [ none ↦ record r { err = some e } | some k ↦ r ]

abbrev pub after_index : Option ℕ → FieldReader → Option Bytes × FieldReader
after_index none r = (none, set_err (unterminated_field r.pos) r)
after_index (some rel) r =
    (some (take rel (drop r.off r.buf)), record r { off = r.off + (rel + 1); pos = r.pos + 1 })

-- The bytes of the current field, or none.
unfoldable pub field : FieldReader → Option Bytes × FieldReader
unfolding index_nul set_err
field r =
    if leb (length r.buf) r.off
    then (none, set_err (missing_field r.pos) r)
    else after_index (index_nul (drop r.off r.buf)) r

-- r.pos-1 of a message that is printed after the field was read. The message ID is field 0, so a
-- reader of numbers stands at 1 or later.
abbrev pub last_pos : FieldReader → ℕ
last_pos r = r.pos - 1

-- A call that fails sets the sticky error and returns its own.
abbrev pub refuse :
    {A : Type 0} → A → FieldError → FieldReader → (A × Option FieldError) × FieldReader
refuse a e r = ((a, some e), set_err e r)

abbrev pub int_value :
    (ℕ → Bytes → FieldError)
    → Bytes
    → Option ℤ
    → FieldReader
    → (ℤ × Option FieldError) × FieldReader
int_value bad f none r = refuse (pos 0) (bad (last_pos r) f) r
int_value bad f (some v) r = ((v, none), r)

abbrev pub int_field :
    ℕ
    → (ℕ → Bytes → FieldError)
    → Option Bytes × FieldReader
    → (ℤ × Option FieldError) × FieldReader
int_field bits bad (none, r) = ((pos 0, r.err), r)
int_field bits bad (some [], r) = ((pos 0, none), r)
int_field bits bad (some (b ∷ f), r) = int_value bad (b ∷ f) (parse_int bits (b ∷ f)) r

unfoldable pub read_int : FieldReader → (ℤ × Option FieldError) × FieldReader
unfolding field
read_int r = int_field 32 bad_int (field r)

unfoldable pub read_int64 : FieldReader → (ℤ × Option FieldError) × FieldReader
unfolding field
read_int64 r = int_field 64 bad_int64 (field r)

abbrev pub string_field : Option Bytes × FieldReader → Bytes × FieldReader
string_field (none, r) = ([], r)
string_field (some f, r) = (f, r)

-- ReadString, and ReadDecimal
unfoldable pub read_string : FieldReader → Bytes × FieldReader
unfolding field
read_string r = string_field (field r)

-- "1", "true", "0" and "false"
abbrev pub one_text : Bytes
one_text = 49 ∷ []

abbrev pub true_text : Bytes
true_text = 116 ∷ 114 ∷ 117 ∷ 101 ∷ []

abbrev pub zero_text : Bytes
zero_text = 48 ∷ []

abbrev pub false_text : Bytes
false_text = 102 ∷ 97 ∷ 108 ∷ 115 ∷ 101 ∷ []

-- string(f) == string(g)
abbrev pub same_bytes : Bytes → Bytes → Bool
same_bytes [] [] = true
same_bytes [] (c ∷ g) = false
same_bytes (b ∷ f) [] = false
same_bytes (b ∷ f) (c ∷ g) = (b == c) && same_bytes f g

abbrev pub bool_field : Option Bytes × FieldReader → (Bool × Option FieldError) × FieldReader
bool_field (none, r) = ((false, r.err), r)
bool_field (some f, r) =
    if same_bytes f one_text || same_bytes f true_text
    then ((true, none), r)
    else (if same_bytes f zero_text || (same_bytes f false_text || same_bytes f [])
        then ((false, none), r)
        else refuse false (bad_bool (last_pos r) f) r)

unfoldable pub read_bool : FieldReader → (Bool × Option FieldError) × FieldReader
unfolding field
read_bool r = bool_field (field r)

-- It stops at the first field that is missing.
unfoldable pub skip : ℕ → FieldReader → FieldReader
unfolding field
skip zero r = r
skip (suc n) r = elim (field r).0 [ none ↦ (field r).1 | some f ↦ skip n (field r).1 ]

unfoldable pub remaining : FieldReader → ℕ
remaining r = if leb r.total r.pos then 0 else r.total - r.pos

unfoldable pub count_value :
    String → Bytes → Option ℤ → FieldReader → (ℕ × Option FieldError) × FieldReader
unfolding remaining
count_value label f none r = refuse 0 (bad_count (last_pos r) label f) r
count_value label f (some (negsuc n)) r = refuse 0 (negative_count (last_pos r) label (negsuc n)) r
count_value label f (some (pos n)) r =
    if ltb (remaining r) n
    then refuse 0 (excess_count (last_pos r) label (pos n) (remaining r)) r
    else ((n, none), r)

unfoldable pub count_field :
    String → Option Bytes × FieldReader → (ℕ × Option FieldError) × FieldReader
unfolding count_value
count_field label (none, r) = refuse 0 (empty_count (last_pos r) label) r
count_field label (some [], r) = refuse 0 (empty_count (last_pos r) label) r
count_field label (some (b ∷ f), r) = count_value label (b ∷ f) (parse_int 64 (b ∷ f)) r

unfoldable pub read_count : String → FieldReader → (ℕ × Option FieldError) × FieldReader
unfolding field count_field
read_count label r =
    if leb (length r.buf) r.off
    then refuse 0 (missing_count r.pos label) r
    else count_field label (field r)

unfoldable pub optional_count_field :
    String → Option Bytes × FieldReader → (ℕ × Option FieldError) × FieldReader
unfolding count_value
optional_count_field label (none, r) = ((0, none), r)
optional_count_field label (some [], r) = ((0, none), r)
optional_count_field label (some (b ∷ f), r) = count_value label (b ∷ f) (parse_int 64 (b ∷ f)) r

unfoldable pub read_optional_count : String → FieldReader → (ℕ × Option FieldError) × FieldReader
unfolding field optional_count_field
read_optional_count label r =
    if leb (length r.buf) r.off then ((0, none), r) else optional_count_field label (field r)

-- The width and the number of trailing fields are constants of the callers.
unfoldable pub require_fixed_entry_fields : String → ℕ → ℕ → ℕ → FieldReader → Option FieldError
unfolding remaining
require_fixed_entry_fields label count width trailer r =
    if width == 0
    then some (invalid_entry_width label width)
    else (if ltb (remaining r) trailer
        then some (few_trailing_fields label trailer (remaining r))
        else reject (ltb ((remaining r - trailer) / width) count)
            (excess_entries label (pos count) (remaining r) width trailer))

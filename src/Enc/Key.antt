-- ===== src/Enc/Key.antt =====
-- internal/enc/key.go: the keys, their text form and its parser. `typeinfo.Reconstruct`, which
-- prints an argument's type, is a parameter of `function_arg_sig`. A kind is a Go string, so it is
-- a text here too.
pub mod Roundtrip
mod Tests
use pgdesign.Base.{
  ℕ, zero, suc, Text, bytes, List, [], ◌∷◌, ◌++◌, Bool, true, false, ◌||◌, not, Option, none, some,
  text_eq, take, drop, index_byte, map, if◌then◌else◌, length, ◌==◌, Result, ok, err,
}

abbrev pub kind_schema_meta : Text
kind_schema_meta = bytes "schema"

abbrev pub kind_table : Text
kind_table = bytes "table"

abbrev pub kind_view : Text
kind_view = bytes "view"

abbrev pub kind_mat_view : Text
kind_mat_view = bytes "matview"

abbrev pub kind_sequence : Text
kind_sequence = bytes "sequence"

abbrev pub kind_function : Text
kind_function = bytes "function"

abbrev pub kind_enum : Text
kind_enum = bytes "enum"

abbrev pub kind_domain : Text
kind_domain = bytes "domain"

abbrev pub kind_composite : Text
kind_composite = bytes "composite"

abbrev pub kind_sm_type : Text
kind_sm_type = bytes "sm_type"

abbrev pub kind_registry_snap : Text
kind_registry_snap = bytes "registry"

abbrev pub kind_dml : Text
kind_dml = bytes "dml"

abbrev pub kind_raw : Text
kind_raw = bytes "raw"

pub record Key : Type 0 where
  pub kind : Text
  pub schema : Text
  pub name : Text
  pub arg_sig : Text

unfoldable pub qualified : Key → Text
qualified k = elim k.schema [ [] ↦ k.name | x ∷ xs ↦ (x ∷ xs) ++ (b'.' ∷ k.name) ]

-- Key.String
unfoldable pub key_string : Key → Text
unfolding qualified text_eq
key_string k =
    if text_eq k.kind kind_schema_meta
    then k.kind ++ (b':' ∷ k.name)
    else if text_eq k.kind kind_registry_snap
    then k.kind ++ (b':' ∷ [])
    else k.kind ++ (b':' ∷ (qualified k ++ k.arg_sig))

-- strings.Join(parts, ",")
unfoldable pub join_commas : List Text → Text
join_commas [] = []
join_commas (p ∷ []) = p
join_commas (p ∷ q ∷ rest) = p ++ (b',' ∷ join_commas (q ∷ rest))

unfoldable pub function_arg_sig {ℓ} : {Arg : Type ℓ} → (Arg → Text) → List Arg → Text
unfolding join_commas
function_arg_sig reconstruct args = b'(' ∷ (join_commas (map reconstruct args) ++ (b')' ∷ []))

pub data KeyError : Type 0 where
  no_kind_prefix pseudo_target malformed_registry unterminated_args unknown_kind : KeyError

abbrev pub Parsed : Type 0
Parsed = Result KeyError Key

-- The cut of splitQualified, from the position of the first '.'.
unfoldable pub qualifier_at : Text → Option ℕ → Text × Text
qualifier_at q none = ([], q)
qualifier_at q (some dot) = (take dot q, drop (suc dot) q)

unfoldable pub split_qualified : Text → Text × Text
unfolding qualifier_at
split_qualified q = qualifier_at q (index_byte q b'.')

-- strings.HasSuffix(rest, ")")
unfoldable pub ends_with : ℕ → Text → Bool
ends_with c [] = false
ends_with c (x ∷ []) = x == c
ends_with c (x ∷ y ∷ rest) = ends_with c (y ∷ rest)

unfoldable pub named_key : Text → Text → Text → Key
unfolding split_qualified
named_key kind q sig =
    let (schema, name) = split_qualified q in
    record { kind = kind; schema = schema; name = name; arg_sig = sig }

-- The case KindFunction, from the position of the first '('.
unfoldable pub function_key : Text → Text → Option ℕ → Parsed
unfolding ends_with named_key
function_key kind rest none = ok (named_key kind rest [])
function_key kind rest (some lp) =
    if not (ends_with b')' rest)
    then err unterminated_args
    else ok (named_key kind (take lp rest) (drop lp rest))

-- KindTable, KindView and the other kinds of the last case but one.
unfoldable pub is_plain_kind : Text → Bool
unfolding text_eq
is_plain_kind kind =
    text_eq kind kind_table
    || text_eq kind kind_view
    || text_eq kind kind_mat_view
    || text_eq kind kind_sequence
    || text_eq kind kind_enum
    || text_eq kind kind_domain
    || text_eq kind kind_composite
    || text_eq kind kind_sm_type

abbrev registry_key : Text → Text → Parsed
registry_key kind [] = ok (record { kind = kind; schema = []; name = []; arg_sig = [] })
registry_key kind (x ∷ xs) = err malformed_registry

-- The switch of ParseKey.
unfoldable pub parse_rest : Text → Text → Parsed
unfolding function_key is_plain_kind text_eq
parse_rest kind rest =
    if text_eq kind kind_dml || text_eq kind kind_raw
    then err pseudo_target
    else if text_eq kind kind_schema_meta
    then ok (record { kind = kind; schema = []; name = rest; arg_sig = [] })
    else if text_eq kind kind_registry_snap
    then registry_key kind rest
    else if text_eq kind kind_function
    then function_key kind rest (index_byte rest b'(')
    else if is_plain_kind kind
    then ok (named_key kind rest [])
    else err unknown_kind

unfoldable pub parse_at : Text → Option ℕ → Parsed
parse_at s none = err no_kind_prefix
parse_at s (some colon) = parse_rest (take colon s) (drop (suc colon) s)

unfoldable pub parse_key : Text → Parsed
unfolding parse_at parse_rest
parse_key s = parse_at s (index_byte s b':')

-- ===== src/Enc/Key/Roundtrip.antt =====
-- `ParseKey` reads back every key of an object kind, and refuses the pseudo-target kinds.
use pgdesign.Base.{
  ℕ, Text, [], ◌∷◌, ◌++◌, true, some, index_byte, length, lacks, index_byte_at, index_byte-lacks,
  take-append, drop-append, drop-append_cons, lacks-append, ◌≡◌, refl, ap, ◌∙◌, arith, append_assoc,
  append-nil, subst, ok, err,
}
use pgdesign.Enc.Key.{
  Key, key_string, qualified, kind_schema_meta, kind_table, kind_view, kind_mat_view, kind_sequence,
  kind_function, kind_enum, kind_domain, kind_composite, kind_sm_type, kind_registry_snap, kind_dml,
  kind_raw, pseudo_target, split_qualified, ends_with, named_key, function_key, parse_rest,
  parse_at, parse_key, is_plain_kind,
}

-- The kinds that a manifest holds, with their texts.
pub data ObjectKind : Type 0 where
  table view mat_view sequence enum domain composite sm_type : ObjectKind

unfoldable pub kind_text : ObjectKind → Text
kind_text table = kind_table
kind_text view = kind_view
kind_text mat_view = kind_mat_view
kind_text sequence = kind_sequence
kind_text enum = kind_enum
kind_text domain = kind_domain
kind_text composite = kind_composite
kind_text sm_type = kind_sm_type

-- Names are unquoted identifiers: no '.', and for functions no '('.
pub record IsPlainName (schema name : Text) : Type 0 where
  pub schema_dot : lacks schema b'.' ≡ true
  pub name_dot : lacks name b'.' ≡ true

abbrev pub key_of : Text → Text → Text → Text → Key
key_of kind schema name sig = record { kind = kind; schema = schema; name = name; arg_sig = sig }

split_qualified-dotted :
    (schema name : Text)
    → lacks schema b'.' ≡ true
    → split_qualified (schema ++ (b'.' ∷ name)) ≡ (schema, name)
unfolding split_qualified
split_qualified-dotted schema name h = rw (
  index_byte_at b'.' schema name h,
  take-append schema (b'.' ∷ name),
  drop-append_cons schema b'.' name,
)

split_qualified-lem :
    (kind schema name sig : Text)
    → IsPlainName schema name
    → split_qualified (qualified (key_of kind schema name sig)) ≡ (schema, name)
unfolding qualified
split_qualified-lem kind [] name sig h =
    unfold split_qualified in rw (index_byte-lacks b'.' name h.name_dot)
split_qualified-lem kind (x ∷ xs) name sig h = split_qualified-dotted (x ∷ xs) name h.schema_dot

named_key-qualified :
    (kind schema name sig : Text)
    → IsPlainName schema name
    → named_key kind (qualified (key_of kind schema name sig)) sig ≡ key_of kind schema name sig
unfolding named_key
named_key-qualified kind schema name sig h =
    ap (λ (p : Text × Text). key_of kind p.0 p.1 sig) (split_qualified-lem kind schema name sig h)

parse_key-cut :
    (kind rest : Text)
    → lacks kind b':' ≡ true
    → parse_key (kind ++ (b':' ∷ rest)) ≡ parse_rest kind rest
unfolding parse_key parse_at
parse_key-cut kind rest h = rw (
  index_byte_at b':' kind rest h,
  take-append kind (b':' ∷ rest),
  drop-append_cons kind b':' rest,
)

kind_lacks : (k : ObjectKind) → lacks (kind_text k) b':' ≡ true
unfolding kind_text lacks
kind_lacks table = refl
kind_lacks _ = refl

-- A key of one of the plain kinds is not one of the four special ones.
plain_string :
    (k : ObjectKind) (schema name : Text)
    → key_string (key_of (kind_text k) schema name [])
      ≡ kind_text k ++ (b':' ∷ (qualified (key_of (kind_text k) schema name []) ++ []))
unfolding key_string kind_text
plain_string table schema name = refl
plain_string _ schema name = refl

plain_rest :
    (k : ObjectKind) (rest : Text)
    → parse_rest (kind_text k) rest ≡ ok (named_key (kind_text k) rest [])
unfolding parse_rest kind_text is_plain_kind
plain_rest table rest = refl
plain_rest _ rest = refl

-- `ParseKey` reads back the text of every key of a plain kind whose names have no '.'.
pub parse_key-string_plain :
    (k : ObjectKind) (schema name : Text)
    → IsPlainName schema name
    → parse_key (key_string (key_of (kind_text k) schema name []))
      ≡ ok (key_of (kind_text k) schema name [])
parse_key-string_plain k schema name h =
    let q = qualified (key_of (kind_text k) schema name []) in
    ap parse_key (plain_string k schema name)
    ∙ parse_key-cut (kind_text k) (q ++ []) (kind_lacks k)
    ∙ ap (parse_rest (kind_text k)) (append-nil q)
    ∙ plain_rest k q
    ∙ ap ok (named_key-qualified (kind_text k) schema name [] h)

ends_with-append : (c : ℕ) (xs : Text) → ends_with c (xs ++ (c ∷ [])) ≡ true
unfolding ends_with
ends_with-append c [] = ground arith
ends_with-append c (x ∷ []) = ground arith
ends_with-append c (x ∷ y ∷ xs) = ends_with-append c (y ∷ xs)

function_rest :
    (rest : Text)
    → parse_rest kind_function rest ≡ function_key kind_function rest (index_byte rest b'(')
unfolding parse_rest is_plain_kind
function_rest rest = refl

qualified-lacks :
    (c : ℕ) (kind schema name sig : Text)
    → lacks (b'.' ∷ []) c ≡ true
    → lacks schema c ≡ true
    → lacks name c ≡ true
    → lacks (qualified (key_of kind schema name sig)) c ≡ true
unfolding qualified
qualified-lacks c kind [] name sig d h k = k
qualified-lacks c kind (x ∷ xs) name sig d h k =
    lacks-append c (x ∷ xs) (b'.' ∷ name) h (lacks-append c (b'.' ∷ []) name d k)

function_key-lem :
    (q args : Text)
    → lacks q b'(' ≡ true
    → function_key kind_function (q ++ (b'(' ∷ (args ++ (b')' ∷ [])))) (some (length q))
      ≡ ok (named_key kind_function q (b'(' ∷ (args ++ (b')' ∷ []))))
unfolding function_key
function_key-lem q args h =
    let sig = b'(' ∷ (args ++ (b')' ∷ [])) in
    let ends : ends_with b')' (q ++ sig) ≡ true =
      subst (λ s. ends_with b')' s ≡ true) (append_assoc q (b'(' ∷ args) (b')' ∷ []))
        (ends_with-append b')' (q ++ (b'(' ∷ args))) in
    rw (ends, take-append q sig, drop-append q sig)

-- `ParseKey` reads back the text of every function key: whatever is between the parentheses of
-- the argument signature, if the names have no '.' and no '('.
pub parse_key-string_function :
    (schema name args : Text)
    → IsPlainName schema name
    → lacks schema b'(' ≡ true
    → lacks name b'(' ≡ true
    → parse_key (key_string (key_of kind_function schema name (b'(' ∷ (args ++ (b')' ∷ [])))))
      ≡ ok (key_of kind_function schema name (b'(' ∷ (args ++ (b')' ∷ []))))
unfolding key_string
parse_key-string_function schema name args h ls ln =
    let sig = b'(' ∷ (args ++ (b')' ∷ [])) in
    let q = qualified (key_of kind_function schema name sig) in
    let open_paren : lacks q b'(' ≡ true =
      qualified-lacks b'(' kind_function schema name sig (unfold lacks in refl) ls ln in
    parse_key-cut kind_function (q ++ sig) (unfold lacks in refl)
    ∙ function_rest (q ++ sig)
    ∙ ap (function_key kind_function (q ++ sig))
        (index_byte_at b'(' q (args ++ (b')' ∷ [])) open_paren)
    ∙ function_key-lem q args open_paren
    ∙ ap ok (named_key-qualified kind_function schema name sig h)

-- The schema header and the registry snapshot have keys without a schema; both are read back, and
-- the pseudo-targets of data and raw SQL steps are refused.
pub parse_key-string_special :
    (name : Text)
    → (parse_key (key_string (key_of kind_schema_meta [] name []))
        ≡ ok (key_of kind_schema_meta [] name []))
      × (parse_key (key_string (key_of kind_registry_snap [] [] []))
          ≡ ok (key_of kind_registry_snap [] [] []))
      × (parse_key (key_string (key_of kind_dml [] name [])) ≡ err pseudo_target)
      × (parse_key (key_string (key_of kind_raw [] name [])) ≡ err pseudo_target)
unfolding key_string parse_rest qualified is_plain_kind
parse_key-string_special name = (
  parse_key-cut kind_schema_meta name (unfold lacks in refl),
  parse_key-cut kind_registry_snap [] (unfold lacks in refl),
  parse_key-cut kind_dml (name ++ []) (unfold lacks in refl),
  parse_key-cut kind_raw (name ++ []) (unfold lacks in refl),
)

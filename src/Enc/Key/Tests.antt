-- ===== src/Enc/Key/Tests.antt =====
-- Manifest keys at concrete names.
use pgdesign.Base.{Text, bytes, [], ◌∷◌, ◌++◌, ◌≡◌, refl, ok, err, lacks, index_byte}
use pgdesign.Enc.Key.{
  key_string, parse_key, kind_function, unknown_kind, unterminated_args, function_arg_sig,
}
use pgdesign.Enc.Key.Roundtrip.{
  table, kind_text, IsPlainName, key_of, parse_key-string_plain, parse_key-string_function,
}

users_IsPlainName : IsPlainName (bytes "app") (bytes "users")
unfolding lacks
users_IsPlainName = record { schema_dot = refl; name_dot = refl }

users_string :
    key_string (key_of (kind_text table) (bytes "app") (bytes "users") []) ≡ bytes "table:app.users"
unfolding key_string kind_text
users_string = refl

arg_sig_sample :
    function_arg_sig (λ (t : Text). t) (bytes "int4" ∷ bytes "text" ∷ []) ≡ bytes "(int4,text)"
unfolding function_arg_sig
arg_sig_sample = refl

unknown_sample : parse_key (bytes "index:app.i") ≡ err unknown_kind
unfolding parse_key index_byte
unknown_sample = refl

unterminated_sample : parse_key (bytes "function:f(int4") ≡ err unterminated_args
unfolding parse_key index_byte
unterminated_sample = refl

parse_key-string_plain_example :
    parse_key (key_string (key_of (kind_text table) (bytes "app") (bytes "users") []))
    ≡ ok (key_of (kind_text table) (bytes "app") (bytes "users") [])
parse_key-string_plain_example =
    parse_key-string_plain table (bytes "app") (bytes "users") users_IsPlainName

parse_key-string_function_example :
    parse_key (
      key_string (
        key_of kind_function
          (bytes "app")
          (bytes "users")
          (b'(' ∷ (bytes "int4,numeric(3)" ++ (b')' ∷ [])))))
    ≡ ok (
        key_of kind_function
          (bytes "app")
          (bytes "users")
          (b'(' ∷ (bytes "int4,numeric(3)" ++ (b')' ∷ []))))
unfolding lacks
parse_key-string_function_example =
    parse_key-string_function (bytes "app") (bytes "users") (bytes "int4,numeric(3)")
      users_IsPlainName refl refl

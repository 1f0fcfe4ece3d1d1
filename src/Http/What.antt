-- ===== src/Http/What.antt =====
-- src/json/json.cc, json.h and src/http/types.h: the texts of the exceptions.
use gabby.Base.{ℕ, ◌++◌, Bytes, codes, ◌≡◌, refl}
use gabby.Outcome.{
  JsonType, num, str, Exception, type_error, parsing_error, key_not_found, internal_error,
  bad_request, timeout, not_found, system_error, std_error,
}
use gabby.Json.Value.{type_name}

-- `to_string(Type)`
unfoldable pub type_string : JsonType → Bytes
unfolding type_name
type_string t = type_name t

-- `TypeError::TypeError`
unfoldable pub wrong_type : JsonType → JsonType → Bytes
unfolding type_string
wrong_type want got =
    codes "wrong type: want " ++ (type_string want ++ (codes ", got " ++ type_string got))

-- `KeyNotFoundError::KeyNotFoundError`
unfoldable pub absent_key : Bytes → Bytes
absent_key key = codes "key not present in object: " ++ key

-- `what()`; the text of a `SystemError` names the place where it is thrown, which is a parameter.
unfoldable pub what : (ℕ → Bytes) → Exception → Bytes
unfolding wrong_type absent_key
what show_errno (type_error want got) = wrong_type want got
what show_errno (parsing_error s) = s
what show_errno (key_not_found key) = absent_key key
what show_errno (internal_error s) = s
what show_errno (bad_request s) = s
what show_errno timeout = codes "request timeout"
what show_errno not_found = codes "not found"
what show_errno (system_error e) = show_errno e
what show_errno (std_error s) = s

-- A string is called a boolean.
string_expected : wrong_type str num ≡ codes "wrong type: want BOOL, got NUM"
unfolding wrong_type
string_expected = refl

-- ===== src/Platform/Json.antt =====
-- JSON payloads of outbox events, as `json.Marshal` writes them and `json.Unmarshal` reads them
-- into a struct: a missing key leaves the zero value, a value of another kind is an error. Of several
-- errors the one of the first field of the struct is given.
use Prim.Native.Char.{code}
use go_sunabar_payments.Base.{
  ℕ, Bool, true, false, ◌-◌, ◌&&◌, ◌==◌, leb, List, [], ◌∷◌, String, str_eq, if◌then◌else◌,
}
use go_sunabar_payments.Base.Int.{ℤ, pos, wrap64, eqb_ℤ}
use go_sunabar_payments.Platform.Errors.{Result, ok, err, external}

pub data Value : Type 0 where
  text : String → Value
  number : ℤ → Value
  null : Value
  -- true, false, an array, an object or a number that is not whole
  other : Value

-- A payload: the keys of an object with their values, in their order, or bytes that are no JSON object.
-- A payload `null` leaves the fields as an object without keys does.
pub data Json : Type 0 where
  object : List (String × Value) → Json
  malformed : Json

-- `foldName`: letters up to their case. Of the characters beyond ASCII, the long s and the sign of kelvin
-- are letters of ASCII up to their case.
abbrev fold_code : ℕ → ℕ
fold_code c =
    if leb 97 c && leb c 122 then c - 32 else if c == 383 then 83 else if c == 8490 then 75 else c

-- The key of a field names it up to case.
abbrev pub same_key : String → String → Bool
same_key String.[] String.[] = true
same_key String.[] (String.◌∷◌ d t) = false
same_key (String.◌∷◌ c s) String.[] = false
same_key (String.◌∷◌ c s) (String.◌∷◌ d t) =
    fold_code (code c) == fold_code (code d) && same_key s t

-- A value stored into a field; `null` leaves it as it is. An error stays, whatever comes later.
abbrev set_string : Result String → Value → Result String
set_string (err e) v = err e
set_string (ok s) (text t) = ok t
set_string (ok s) (number _) = err (external "json: cannot unmarshal number into string")
set_string (ok s) null = ok s
set_string (ok s) other = err (external "json: cannot unmarshal value into string")

-- A number has to be within the range of an int64.
abbrev set_int64 : Result ℤ → Value → Result ℤ
set_int64 (err e) v = err e
set_int64 (ok n) (number m) =
    if eqb_ℤ (wrap64 m) m then ok m else err (external "json: cannot unmarshal number into int64")
set_int64 (ok n) (text _) = err (external "json: cannot unmarshal string into int64")
set_int64 (ok n) null = ok n
set_int64 (ok n) other = err (external "json: cannot unmarshal value into int64")

-- Every member that names the field is stored, so that the last of them stands.
abbrev pub store_all :
    {A : Type 0}
    → (Result A → Value → Result A)
    → String
    → Result A
    → List (String × Value)
    → Result A
store_all set key field [] = field
store_all set key field ((k, v) ∷ fields) =
    store_all set key (if same_key k key then set field v else field) fields

abbrev pub string_field : String → List (String × Value) → Result String
string_field key fields = store_all set_string key (ok "") fields

abbrev pub int64_field : String → List (String × Value) → Result ℤ
int64_field key fields = store_all set_int64 key (ok (pos 0)) fields

-- `omitempty`: an empty string is left out of the object.
abbrev pub omit_empty : String → String → List (String × Value) → List (String × Value)
omit_empty key s rest = if str_eq s "" then rest else (key, text s) ∷ rest

abbrev pub malformed_error {ℓ} : {A : Type ℓ} → Result A
malformed_error = err (external "json: invalid payload")

infixl 5 ◌>>=◌
abbrev pub ◌>>=◌ {ℓ κ} : {A : Type ℓ} {B : Type κ} → Result A → (A → Result B) → Result B
ok a >>= f = f a
err e >>= f = err e

-- ===== src/Sunabar/Json.antt =====
-- JSON values as internal/platform/sunabar/http_client.go uses them: `json.Marshal` writes structs of
-- texts, and a `json.Decoder` reads structs: a
-- missing key or null leaves the zero value, a value of another kind is an error. The keys of an object
-- are distinct.
use go_sunabar_payments.Base.{
  Bool, List, [], ◌∷◌, Option, none, some, String, str_eq, if◌then◌else◌,
}
use go_sunabar_payments.Base.Int.{ℤ, pos, wrap64, eqb_ℤ}
use go_sunabar_payments.Platform.Errors.{Result, ok, err, external}
use go_sunabar_payments.Platform.Json.{◌>>=◌}

mutual
  pub data Tree : Type 0 where
    null : Tree
    flag : Bool → Tree
    number : ℤ → Tree
    text : String → Tree
    array : Trees → Tree
    object : Members → Tree

  pub data Trees : Type 0 where
    nil : Trees
    cons : Tree → Trees → Trees

  pub data Members : Type 0 where
    end : Members
    member : String → Tree → Members → Members

abbrev pub texts : List (String × String) → Members
texts [] = end
texts ((key, s) ∷ rest) = member key (text s) (texts rest)

abbrev pub find_member : String → Members → Option Tree
find_member key end = none
find_member key (member k v rest) = if str_eq k key then some v else find_member key rest

abbrev pub mismatch {ℓ} : {A : Type ℓ} → Result A
mismatch = err (external "json: cannot unmarshal value into Go struct field")

abbrev pub as_text : Option Tree → Result String
as_text none = ok ""
as_text (some null) = ok ""
as_text (some (text s)) = ok s
as_text (some _) = mismatch

abbrev pub as_int : Option Tree → Result ℤ
as_int none = ok (pos 0)
as_int (some null) = ok (pos 0)
as_int (some (number n)) = if eqb_ℤ (wrap64 n) n then ok n else mismatch
as_int (some _) = mismatch

abbrev pub text_member : String → Members → Result String
text_member key ms = as_text (find_member key ms)

module _ {ℓ} {A : Type ℓ} (decode : Members → Result A) where
  -- A struct; `null` leaves all of its fields as they are.
  abbrev pub decode_struct : Tree → Result A
  decode_struct null = decode end
  decode_struct (object ms) = decode ms
  decode_struct _ = mismatch

  abbrev pub decode_items : Trees → Result (List A)
  decode_items nil = ok []
  decode_items (cons t ts) = decode_struct t >>= λ a. decode_items ts >>= λ items. ok (a ∷ items)

  -- A slice of structs.
  abbrev pub as_slice : Option Tree → Result (List A)
  as_slice none = ok []
  as_slice (some null) = ok []
  as_slice (some (array ts)) = decode_items ts
  as_slice (some _) = mismatch

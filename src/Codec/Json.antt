-- ===== src/Codec/Json.antt =====
-- The JSON values of the columns that the evaluation reads back; of the numbers, the natural ones.
use document_insight.Prelude.{
  ℕ, Bool, true, false, not, ◌&&◌, ◌==◌, ◌≡◌, refl, arith, [], ◌∷◌, if◌then◌else◌,
}
use document_insight.Chunker.Text.{Text, code_points}
use document_insight.Store.Entities.{same_text}
use document_insight.Codec.Decimal.{decimal_text}

mutual
  pub data Value : Type 0 where
    null : Value
    bool : Bool → Value
    number : ℕ → Value
    text : Text → Value
    array : Items → Value
    object : Fields → Value

  pub data Items : Type 0 where
    nil : Items
    cons : Value → Items → Items

  pub data Fields : Type 0 where
    end : Fields
    field : Text → Value → Fields → Fields

unfoldable pub lacks : Text → Fields → Bool
unfolding same_text
lacks key end = true
lacks key (field name value fields) = not (same_text name key) && lacks key fields

-- `raw.get(key)`, where a missing key is `None` as a null is; of fields with one key a dict keeps
-- the last
unfoldable pub get : Text → Fields → Value
unfolding same_text lacks
get key end = null
get key (field name value fields) =
    if same_text name key && lacks key fields then value else get key fields

-- `str(value)`; the other values' texts are no UUIDs
abbrev pub text_of : Value → Text
text_of (text t) = t
text_of (number n) = decimal_text n
text_of _ = code_points "None"

-- `bool(value)`
abbrev pub is_true : Value → Bool
is_true null = false
is_true (bool b) = b
is_true (number n) = not (n == 0)
is_true (text []) = false
is_true (text (c ∷ t)) = true
is_true (array nil) = false
is_true (array (cons v vs)) = true
is_true (object end) = false
is_true (object (field k v fs)) = true

-- `{**fields, **others}`
unfoldable pub append : Fields → Fields → Fields
append end others = others
append (field name value fields) others = field name value (append fields others)

lacks-append :
    (key : Text) (fields others : Fields)
    → lacks key others ≡ true
    → lacks key (append fields others) ≡ lacks key fields
unfolding lacks append
lacks-append key end others h = h
lacks-append key (field name value fields) others h = rw (lacks-append key fields others h) refl

get-lacks : (key : Text) (fields : Fields) → lacks key fields ≡ true → get key fields ≡ null
unfolding get lacks
get-lacks key end h = refl
get-lacks key (field name value fields) h =
    let other : same_text name key ≡ false = ground (arith, h) in
    let rest : lacks key fields ≡ true = ground (arith, h) in rw other (get-lacks key fields rest)

-- A merge with a dict that lacks the key gives the key's value before.
pub get-append :
    (key : Text) (fields others : Fields)
    → lacks key others ≡ true
    → get key (append fields others) ≡ get key fields
unfolding get append
get-append key end others h = get-lacks key others h
get-append key (field name value fields) others h =
    rw (lacks-append key fields others h, get-append key fields others h) refl

-- ===== src/Accounts/Cursor.antt =====
-- services/accounts.py: the cursor of a page as a text. base64, json, datetime and uuid are Python's
-- own: the record `CursorCodec` has the functions that the code calls, with what it relies on. Texts
-- in UTF-8 stand for their bytes.
use Prim.Native.Char.{Char, code}
use Prim.Native.Nat.{◌%◌}
use Prim.Native.String.{◌∷◌ as cons, [] as empty_text}
use smart_email_manager.Prelude.{
  ℕ, zero, suc, ◌+◌, ◌-◌, ◌<◌, ◌≡◌, String, Option, none, some, List, [], ◌∷◌, ◌==◌, if◌then◌else◌,
  str_eq,
}
use smart_email_manager.Problem.{Result, ok, err, problem, crash, ◌>>=◌}

pub record AccountCursor : Type 0 where
  pub created_at : ℕ
  pub account_id : ℕ

-- len(text)
unfoldable pub text_length : String → ℕ
text_length String.[] = 0
text_length (String.◌∷◌ c s) = text_length s + 1

-- text + "=" * n
unfoldable pub add_equals : String → ℕ → String
add_equals String.[] zero = empty_text
add_equals String.[] (suc n) = cons "=" (add_equals String.[] n)
add_equals (String.◌∷◌ c s) n = cons c (add_equals s n)

abbrev pub keep_mark : Char → String → String
keep_mark c String.[] = if code c == 61 then empty_text else cons c empty_text
keep_mark c (String.◌∷◌ d s) = cons c (cons d s)

-- text.rstrip("=")
unfoldable pub rstrip_equals : String → String
rstrip_equals String.[] = empty_text
rstrip_equals (String.◌∷◌ c s) = keep_mark c (rstrip_equals s)

-- What a field of a JSON object holds: a text, null, or anything else.
pub data JsonField : Type 0 where
  text : String → JsonField
  null other : JsonField

pub record CursorCodec : Type 0 where
  -- datetime.isoformat, datetime.fromisoformat, str(uuid) and uuid.UUID, of a text
  pub isoformat : ℕ → String
  pub fromisoformat : String → Option ℕ
  pub uuid_text : ℕ → String
  pub uuid_of : String → Option ℕ
  -- json.dumps of an object of texts, and the fields of an object that json.loads reads
  pub dumps : List (String × String) → String
  pub loads : String → Option (List (String × JsonField))
  -- base64.urlsafe_b64encode and base64.urlsafe_b64decode
  pub b64encode : String → String
  pub b64decode : String → Option String
  pub fromisoformat-isoformat : (at : ℕ) → fromisoformat (isoformat at) ≡ some at
  pub uuid_of-uuid_text : (id : ℕ) → uuid_of (uuid_text id) ≡ some id
  pub loads-dumps :
      (at id : ℕ)
      → loads (dumps (("created_at", isoformat at) ∷ ("id", uuid_text id) ∷ []))
        ≡ some (("created_at", text (isoformat at)) ∷ ("id", text (uuid_text id)) ∷ [])
  -- JSON has no empty text.
  pub loads_empty : loads "" ≡ none
  pub b64decode-b64encode : (payload : String) → b64decode (b64encode payload) ≡ some payload
  pub b64decode_empty : b64decode "" ≡ some ""
  -- The text comes in groups of four, the last one filled up with fewer than four "=".
  pub b64_length : (payload : String) → text_length (b64encode payload) % 4 ≡ 0
  pub b64_padding :
      (payload : String)
      → text_length (b64encode payload) < text_length (rstrip_equals (b64encode payload)) + 4

abbrev pub invalid_cursor {ℓ} : {A : Type ℓ} → Result A
invalid_cursor = err (problem 400 "INVALID_CURSOR")

-- A KeyError, a TypeError or a ValueError of a step.
abbrev pub or_invalid {ℓ} : {A : Type ℓ} → Option A → Result A
or_invalid none = invalid_cursor
or_invalid (some a) = ok a

-- payload[name]
unfoldable pub field_of : String → List (String × JsonField) → Option JsonField
field_of name [] = none
field_of name (field ∷ fields) = if str_eq field.0 name then some field.1 else field_of name fields

-- -len(value) % 4
abbrev pub missing_marks : String → ℕ
missing_marks value = (4 - text_length value % 4) % 4

module _ (codec : CursorCodec) where
  abbrev pub cursor_fields : AccountCursor → List (String × String)
  cursor_fields cursor =
      ("created_at", codec.isoformat cursor.created_at)
      ∷ ("id", codec.uuid_text cursor.account_id)
      ∷ []

  unfoldable pub encode_account_cursor : AccountCursor → String
  encode_account_cursor cursor =
      rstrip_equals (codec.b64encode (codec.dumps (cursor_fields cursor)))

  -- datetime.fromisoformat: a TypeError for what is no text
  abbrev pub read_time : JsonField → Result ℕ
  read_time (text s) = or_invalid (codec.fromisoformat s)
  read_time null = invalid_cursor
  read_time other = invalid_cursor

  -- uuid.UUID: a TypeError for null, and an AttributeError, which is not caught, for what is no text
  abbrev pub read_id : JsonField → Result ℕ
  read_id (text s) = or_invalid (codec.uuid_of s)
  read_id null = invalid_cursor
  read_id other = err (crash "AttributeError")

  unfoldable pub decode_account_cursor : String → Result AccountCursor
  decode_account_cursor value = do
    payload ← or_invalid (codec.b64decode (add_equals value (missing_marks value)))
    fields ← or_invalid (codec.loads payload)
    created_text ← or_invalid (field_of "created_at" fields)
    created_at ← read_time created_text
    id_text ← or_invalid (field_of "id" fields)
    account_id ← read_id id_text
    ok (record { created_at = created_at; account_id = account_id })

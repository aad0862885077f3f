-- ===== src/Imports/Lines.antt =====
-- services/imports.py: how the text of an import is read. What email_validator and `uuid.UUID`
-- answer and str.lower are parameters. Messages for people are left out.
use Prim.Native.Char.{Char, code}
use Prim.Native.String.{◌∷◌ as cons, [] as empty_text}
use smart_email_manager.Prelude.{
  ℕ, String, Bool, true, false, ◌&&◌, Option, none, some, List, [], ◌∷◌, map, ◌==◌, if◌then◌else◌,
  str_eq, strip,
}
use smart_email_manager.Json.{Data, text}

pub data ItemStatus : Type 0 where
  valid invalid conflict created skipped failed rolled_back : ItemStatus

pub record ParsedImportLine : Type 0 where
  pub line_number : ℕ
  pub status : ItemStatus
  pub email : Option String
  pub email_normalized : Option String
  pub provider_metadata : Data
  pub password : Option String
  pub refresh_token : Option String
  pub error_code : Option String

-- The characters of SEPARATOR = "----".
abbrev pub is_separator : Char → Char → Char → Char → Bool
is_separator a b c d = code a == 45 && code b == 45 && code c == 45 && code d == 45

abbrev pub onto_first : Char → List String → List String
onto_first c [] = cons c empty_text ∷ []
onto_first c (part ∷ parts) = cons c part ∷ parts

-- line.split(SEPARATOR)
unfoldable pub split : String → List String
split (String.◌∷◌ a (String.◌∷◌ b (String.◌∷◌ c (String.◌∷◌ d s)))) = elim (is_separator a b c d) [
  | true ↦ empty_text ∷ split s
  | false ↦ onto_first a (split (cons b (cons c (cons d s))))
]
split s = s ∷ []

infixl 5 ◌>>=◌
abbrev pub ◌>>=◌ {ℓ κ} : {A : Type ℓ} {B : Type κ} → Option A → (A → Option B) → Option B
none >>= continue = none
some a >>= continue = continue a

-- x or None
abbrev pub or_none : String → Option String
or_none written = if str_eq written "" then none else some written

abbrev pub first_part : List String → Option String
first_part [] = none
first_part (part ∷ parts) = some part

module _ (validate_email : String → Option String) (is_uuid : String → Bool)
    (lower : String → String) where
  unfoldable pub normalize_email : String → Option (String × String)
  normalize_email value = elim (validate_email (strip value)) [
    | none ↦ none
    | some normalized ↦ some (strip value, lower normalized)
  ]

  -- The client id and the refresh token of the last two fields.
  unfoldable pub client_and_token : String → String → Option (String × String)
  client_and_token third fourth =
      if is_uuid (strip third)
      then some (third, fourth)
      else if is_uuid (strip fourth)
      then some (fourth, third)
      else none

  -- What the `try` block returns, `none` where it raises.
  unfoldable pub read_fields : ℕ → List String → Option ParsedImportLine
  read_fields line_number (address ∷ password ∷ third ∷ fourth ∷ []) = do
    (email, normalized) ← normalize_email address
    (client_id, refresh_token) ← client_and_token third fourth
    if str_eq refresh_token ""
        then none
        else some (record {
          line_number = line_number;
          status = valid;
          email = some email;
          email_normalized = some normalized;
          provider_metadata = ("client_id", text client_id) ∷ [];
          password = or_none password;
          refresh_token = some refresh_token;
          error_code = none;
        })
  read_fields line_number parts = none

  abbrev pub invalid_line : ℕ → List String → ParsedImportLine
  invalid_line line_number parts = record {
    line_number = line_number;
    status = invalid;
    email = first_part parts;
    email_normalized = none;
    provider_metadata = [];
    password = none;
    refresh_token = none;
    error_code = some "IMPORT_LINE_INVALID";
  }

  unfoldable pub parse_import_line : String → ℕ → String → ParsedImportLine
  parse_import_line line line_number account_type =
      let parts = map strip (split line) in
      elim (if str_eq account_type "outlook" then read_fields line_number parts else none) [
        | none ↦ invalid_line line_number parts
        | some parsed ↦ parsed
      ]

-- ===== src/Imports/RoundTrip.antt =====
-- A line of an import, written from its fields and read back.
use Prim.Native.String.{◌++◌ as str_append}
use smart_email_manager.Prelude.{
  ℕ, ◌≡◌, refl, ap, subst, ◌∙◌, String, Bool, true, false, Option, none, some, List, [], ◌∷◌, map,
  str_eq, strip,
}
use smart_email_manager.Json.{text}
use smart_email_manager.Imports.Lines.{
  valid, ParsedImportLine, split, or_none, normalize_email, client_and_token, read_fields,
  parse_import_line,
}
use smart_email_manager.Imports.Split.{
  has_separator, split-separated, split-whole, separated-append, dashed-append,
  has_separator-dashed,
}

-- A field as it may stand in a line: stripped, with no separator in it nor across its end.
abbrev pub IsField : String → Type 0
IsField field = (strip field ≡ field) × (has_separator (str_append field "---") ≡ false)

abbrev pub line_of : String → String → String → String → String
line_of first second third fourth = str_append first (
    str_append "----"
      (str_append second (str_append "----" (str_append third (str_append "----" fourth)))))

split-field :
    (field rest : String)
    → IsField field
    → split (str_append field (str_append "----" rest)) ≡ field ∷ split rest
split-field field rest h =
    ap split (separated-append field rest)
    ∙ split-separated field rest (subst (λ s. has_separator s ≡ false) (dashed-append field) h.1)

split-last : (field : String) → IsField field → split field ≡ field ∷ []
split-last field h =
    split-whole field
      (has_separator-dashed field (subst (λ s. has_separator s ≡ false) (dashed-append field) h.1))

split-line_of :
    (a b c d : String)
    → IsField a
    → IsField b
    → IsField c
    → IsField d
    → map strip (split (line_of a b c d)) ≡ a ∷ b ∷ c ∷ d ∷ []
split-line_of a b c d ha hb hc hd =
    rw
      (
        split-field a _ ha,
        split-field b _ hb,
        split-field c d hc,
        split-last d hd,
        ha.0,
        hb.0,
        hc.0,
        hd.0,
      )
      refl

module _ (validate_email : String → Option String) (is_uuid : String → Bool)
    (lower : String → String) where
  abbrev pub valid_line : ℕ → String → String → String → String → String → ParsedImportLine
  valid_line n email normalized password client_id token = record {
    line_number = n;
    status = valid;
    email = some email;
    email_normalized = some (lower normalized);
    provider_metadata = ("client_id", text client_id) ∷ [];
    password = or_none password;
    refresh_token = some token;
    error_code = none;
  }

  normalize_email-valid :
      (email normalized : String)
      → strip email ≡ email
      → validate_email email ≡ some normalized
      → normalize_email validate_email is_uuid lower email ≡ some (email, lower normalized)
  unfolding normalize_email
  normalize_email-valid email normalized stripped checked =
      rw (normalize_email, stripped, checked, stripped) refl

  client_and_token-first :
      (client_id token : String)
      → strip client_id ≡ client_id
      → is_uuid client_id ≡ true
      → client_and_token validate_email is_uuid lower client_id token ≡ some (client_id, token)
  unfolding client_and_token
  client_and_token-first client_id token stripped uuid = rw (client_and_token, stripped, uuid) refl

  client_and_token-second :
      (client_id token : String)
      → strip client_id ≡ client_id
      → strip token ≡ token
      → is_uuid client_id ≡ true
      → is_uuid token ≡ false
      → client_and_token validate_email is_uuid lower token client_id ≡ some (client_id, token)
  unfolding client_and_token
  client_and_token-second client_id token stripped stripped' uuid other =
      rw (client_and_token, stripped', other, stripped, uuid) refl

  read_fields-valid :
      (n : ℕ) (email normalized password third fourth client_id token : String)
      → normalize_email validate_email is_uuid lower email ≡ some (email, lower normalized)
      → client_and_token validate_email is_uuid lower third fourth ≡ some (client_id, token)
      → str_eq token "" ≡ false
      → read_fields validate_email is_uuid lower n (email ∷ password ∷ third ∷ fourth ∷ [])
        ≡ some (valid_line n email normalized password client_id token)
  unfolding read_fields
  read_fields-valid n email normalized password third fourth client_id token e k filled =
      rw (read_fields, e, k, filled) refl

  parse_import_line-fields :
      (line : String) (n : ℕ) (parts : List String) (parsed : ParsedImportLine)
      → map strip (split line) ≡ parts
      → read_fields validate_email is_uuid lower n parts ≡ some parsed
      → parse_import_line validate_email is_uuid lower line n "outlook" ≡ parsed
  unfolding parse_import_line
  parse_import_line-fields line n parts parsed e k = rw (parse_import_line, e, k) refl

  -- A line of four fields, whose address is valid, whose client id is a UUID and whose token is not
  -- empty, is read as exactly these fields, an empty password as none; so is the line with
  -- the client id behind the token, if the token is no UUID. Each field is stripped and has no
  -- separator in it nor across its end.
  pub parse_import_line-line_of :
      (n : ℕ) (email normalized password client_id token : String)
      → IsField email
      → IsField password
      → IsField client_id
      → IsField token
      → validate_email email ≡ some normalized
      → is_uuid client_id ≡ true
      → str_eq token "" ≡ false
      → (parse_import_line validate_email is_uuid lower
            (line_of email password client_id token)
            n
            "outlook"
          ≡ valid_line n email normalized password client_id token)
        × (is_uuid token ≡ false
            → parse_import_line validate_email is_uuid lower
                (line_of email password token client_id)
                n
                "outlook"
              ≡ valid_line n email normalized password client_id token)
  parse_import_line-line_of n email normalized password client_id token he hp hc ht checked uuid
        filled =
      let address = normalize_email-valid email normalized he.0 checked in
      (
        parse_import_line-fields (line_of email password client_id token) n _ _
            (split-line_of email password client_id token he hp hc ht)
            (read_fields-valid n email normalized password client_id token client_id token address
              (client_and_token-first client_id token hc.0 uuid) filled),
        λ other.
            parse_import_line-fields (line_of email password token client_id) n _ _
              (split-line_of email password token client_id he hp ht hc)
              (read_fields-valid n email normalized password token client_id client_id token address
                (client_and_token-second client_id token hc.0 ht.0 uuid other) filled),
      )

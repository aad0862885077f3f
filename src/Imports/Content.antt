-- ===== src/Imports/Content.antt =====
-- services/imports.py: `parse_import_content`, with Python's `str.splitlines`.
use Prim.Native.Char.{Char, code}
use Prim.Native.String.{◌∷◌ as cons, [] as empty_text}
use smart_email_manager.Prelude.{
  ℕ, suc, String, Bool, true, false, ◌&&◌, ◌||◌, Option, none, some, List, [], ◌∷◌, map, ◌==◌, leb,
  if◌then◌else◌, str_eq, strip,
}
use smart_email_manager.Imports.Lines.{
  ItemStatus, valid, invalid, conflict, ParsedImportLine, onto_first, or_none, parse_import_line,
}

-- The characters that end a line.
abbrev pub is_break : ℕ → Bool
is_break c = leb 10 c && leb c 13 || leb 28 c && leb c 30 || c == 133 || c == 8232 || c == 8233

abbrev pub add_line : Char → List String → List String
add_line c rest = if is_break (code c) then empty_text ∷ rest else onto_first c rest

-- content.splitlines()
unfoldable pub splitlines : String → List String
splitlines String.[] = []
splitlines (String.◌∷◌ c String.[]) = add_line c []
splitlines (String.◌∷◌ c (String.◌∷◌ d s)) = elim (code c == 13 && code d == 10) [
  | true ↦ empty_text ∷ splitlines s
  | false ↦ add_line c (splitlines (cons d s))
]

-- The stripped lines that are not blank, with their numbers from `n` on.
unfoldable pub numbered : ℕ → List String → List (ℕ × String)
numbered n [] = []
numbered n (line ∷ lines) =
    let rest = numbered (suc n) lines in
    if str_eq (strip line) "" then rest else (n, strip line) ∷ rest

abbrev pub item_status_code : ItemStatus → ℕ
item_status_code valid = 0
item_status_code invalid = 1
item_status_code conflict = 2
item_status_code ItemStatus.created = 3
item_status_code ItemStatus.skipped = 4
item_status_code ItemStatus.failed = 5
item_status_code ItemStatus.rolled_back = 6

-- value in seen
unfoldable pub in_texts : String → List String → Bool
in_texts s [] = false
in_texts s (t ∷ ts) = str_eq s t || in_texts s ts

-- The address of a valid item, where it has one.
abbrev pub valid_email : ParsedImportLine → Option String
valid_email item = if item_status_code item.status == 0 then text_of item.email_normalized else none
  where
    text_of : Option String → Option String
    text_of none = none
    text_of (some written) = or_none written

abbrev pub in_conflict : String → ParsedImportLine → ParsedImportLine
in_conflict error_code item = record item { status = conflict; error_code = some error_code }

unfoldable pub mark_duplicates : List String → List ParsedImportLine → List ParsedImportLine
mark_duplicates seen [] = []
mark_duplicates seen (item ∷ items) = elim (valid_email item) [
  | none ↦ item ∷ mark_duplicates seen items
  | some email ↦
      (if in_texts email seen then in_conflict "IMPORT_BATCH_DUPLICATE" item else item)
      ∷ mark_duplicates (email ∷ seen) items
]

module _ (validate_email : String → Option String) (is_uuid : String → Bool)
    (lower : String → String) where
  abbrev pub parse_lines : String → List (ℕ × String) → List ParsedImportLine
  parse_lines account_type lines =
      map (λ l. parse_import_line validate_email is_uuid lower l.1 l.0 account_type) lines

  unfoldable pub parse_import_content : String → String → List ParsedImportLine
  parse_import_content content account_type =
      mark_duplicates [] (parse_lines account_type (numbered 1 (splitlines content)))

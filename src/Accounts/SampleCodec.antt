-- ===== src/Accounts/SampleCodec.antt =====
-- Functions with the laws of `CursorCodec`, for the tests: numbers in unary, an object as its texts with
-- a comma behind each, and a code in groups of four whose last one is filled up.
use Prim.Native.Char.{Char, code}
use Prim.Native.Nat.{◌%◌}
use Prim.Native.String.{◌∷◌ as cons, [] as empty_text}
use smart_email_manager.Prelude.{
  ℕ, zero, suc, ◌+◌, ◌<◌, ◌≡◌, refl, ap, ◌∙◌, String, true, false, Option, none, some, List, [],
  ◌∷◌, arith, ◌==◌,
}
use smart_email_manager.Accounts.Cursor.{
  CursorCodec, JsonField, text, text_length, keep_mark, rstrip_equals,
}

abbrev pub unary : ℕ → String → String
unary zero rest = rest
unary (suc n) rest = cons "1" (unary n rest)

abbrev pub number_of : ℕ → String → Option ℕ
number_of n String.[] = some n
number_of n (String.◌∷◌ c s) = number_of (suc n) s

number_of-unary : (m n : ℕ) → number_of m (unary n empty_text) ≡ some (m + n)
number_of-unary m zero = let e : m + 0 ≡ m = omega arith in rw e refl
number_of-unary m (suc n) =
    let e : suc m + n ≡ m + suc n = omega arith in rw (number_of-unary (suc m) n, e) refl

pub number_back : (n : ℕ) → number_of 0 (unary n empty_text) ≡ some n
number_back n = let e : 0 + n ≡ n = omega arith in number_of-unary 0 n ∙ ap some e

abbrev pub onto : String → String → String
onto String.[] rest = rest
onto (String.◌∷◌ c s) rest = cons c (onto s rest)

onto-unary : (n : ℕ) (rest : String) → onto (unary n empty_text) rest ≡ unary n rest
onto-unary zero rest = refl
onto-unary (suc n) rest = ap (λ s. cons "1" s) (onto-unary n rest)

abbrev pub dumps : List (String × String) → String
dumps [] = empty_text
dumps (field ∷ fields) = onto field.1 (cons "," (dumps fields))

-- A number up to the next comma, and what is behind it.
abbrev pub next_number : ℕ → String → Option (ℕ × String)
next_number n String.[] = none
next_number n (String.◌∷◌ c s) = elim (code c == 49) [
  | true ↦ next_number (suc n) s
  | false ↦ some (n, s)
]

next_number-unary : (m n : ℕ) (s : String) → next_number m (unary n (cons "," s)) ≡ some (m + n, s)
next_number-unary m zero s = let e : m + 0 ≡ m = omega arith in rw e refl
next_number-unary m (suc n) s =
    let e : suc m + n ≡ m + suc n = omega arith in rw (next_number-unary (suc m) n s, e) refl

abbrev pub object_of : ℕ → ℕ → List (String × JsonField)
object_of at id =
    ("created_at", text (unary at empty_text)) ∷ ("id", text (unary id empty_text)) ∷ []

abbrev pub rest_of : ℕ → Option (ℕ × String) → Option (List (String × JsonField))
rest_of at none = none
rest_of at (some (id, rest)) = some (object_of at id)

abbrev pub object_from : Option (ℕ × String) → Option (List (String × JsonField))
object_from none = none
object_from (some (at, rest)) = rest_of at (next_number 0 rest)

pub loads_back :
    (at id : ℕ)
    → object_from (
        next_number 0
          (dumps (("created_at", unary at empty_text) ∷ ("id", unary id empty_text) ∷ [])))
      ≡ some (object_of at id)
loads_back at id =
    let rest = cons "," (onto (unary id empty_text) (cons "," empty_text)) in
    let e : 0 + at ≡ at = omega arith in
    let d : 0 + id ≡ id = omega arith in
    rw
      (
        onto-unary at rest,
        onto-unary id (cons "," empty_text),
        next_number-unary 0 at (unary id (cons "," empty_text)),
        next_number-unary 0 id empty_text,
        e,
        d,
      )
      refl

-- Each character in a group with three more, and a group with three marks at the end.
abbrev pub groups : String → String
groups String.[] = "A==="
groups (String.◌∷◌ c s) = cons c (cons "A" (cons "A" (cons "A" (groups s))))

abbrev pub stripped : String → String
stripped String.[] = "A"
stripped (String.◌∷◌ c s) = cons c (cons "A" (cons "A" (cons "A" (stripped s))))

abbrev pub push_char : Char → Option String → Option String
push_char c none = none
push_char c (some s) = some (cons c s)

abbrev pub ungroup : String → Option String
ungroup String.[] = some empty_text
ungroup (String.◌∷◌ c (String.◌∷◌ d (String.◌∷◌ e (String.◌∷◌ f s)))) = elim (code d == 61) [
  | true ↦ some empty_text
  | false ↦ push_char c (ungroup s)
]
ungroup _ = none

pub ungroup-groups : (s : String) → ungroup (groups s) ≡ some s
ungroup-groups String.[] = refl
ungroup-groups (String.◌∷◌ c s) = ap (push_char c) (ungroup-groups s)

pub length-groups : (s : String) → text_length (groups s) % 4 ≡ 0
unfolding text_length
length-groups String.[] = refl
length-groups (String.◌∷◌ c s) = omega (arith, length-groups s)

keep_mark-group : (s : String) → keep_mark "A" s ≡ cons "A" s
keep_mark-group String.[] = refl
keep_mark-group (String.◌∷◌ c s) = refl

rstrip-groups : (s : String) → rstrip_equals (groups s) ≡ stripped s
unfolding rstrip_equals
rstrip-groups String.[] = refl
rstrip-groups (String.◌∷◌ c s) = rw (rstrip-groups s, keep_mark-group (stripped s)) refl

length-stripped : (s : String) → text_length (groups s) < text_length (stripped s) + 4
unfolding text_length
length-stripped String.[] = omega arith
length-stripped (String.◌∷◌ c s) = omega (arith, length-stripped s)

pub padding-groups :
    (s : String) → text_length (groups s) < text_length (rstrip_equals (groups s)) + 4
padding-groups s = rw (rstrip-groups s) (length-stripped s)

abbrev pub unary_codec : CursorCodec
unary_codec = record {
  isoformat = λ at. unary at empty_text;
  fromisoformat = number_of 0;
  uuid_text = λ id. unary id empty_text;
  uuid_of = number_of 0;
  dumps = dumps;
  loads = λ s. object_from (next_number 0 s);
  b64encode = groups;
  b64decode = ungroup;
  fromisoformat-isoformat = number_back;
  uuid_of-uuid_text = number_back;
  loads-dumps = loads_back;
  loads_empty = refl;
  b64decode-b64encode = ungroup-groups;
  b64decode_empty = refl;
  b64_length = length-groups;
  b64_padding = padding-groups;
}

-- ===== src/Imports/Split.antt =====
-- What `split` makes of fields that a separator ends.
use Prim.Native.Char.{Char}
use Prim.Native.String.{◌++◌ as str_append, ◌∷◌ as cons, [] as empty_text}
use text.Mathlib.TextLemmas.{nil-append, cons-append}
use smart_email_manager.Prelude.{◌≡◌, refl, ap, ◌∙◌, String, Bool, true, false, [], ◌∷◌}
use smart_email_manager.Imports.Lines.{is_separator, onto_first, split}

-- SEPARATOR in s
unfoldable pub has_separator : String → Bool
has_separator (String.◌∷◌ a (String.◌∷◌ b (String.◌∷◌ c (String.◌∷◌ d s)))) =
    elim (is_separator a b c d) [ true ↦ true | false ↦ has_separator (cons b (cons c (cons d s))) ]
has_separator s = false

abbrev pub four : Char → Char → Char → Char → String → String
four a b c d s = cons a (cons b (cons c (cons d s)))

split-next :
    (a b c d : Char) (s : String)
    → is_separator a b c d ≡ false
    → split (four a b c d s) ≡ onto_first a (split (cons b (cons c (cons d s))))
unfolding split
split-next a b c d s h = rw (split, h) refl

split-here :
    (a b c d : Char) (s : String)
    → is_separator a b c d ≡ true
    → split (four a b c d s) ≡ empty_text ∷ split s
unfolding split
split-here a b c d s h = rw (split, h) refl

has_separator-next :
    (a b c d : Char) (s : String)
    → has_separator (four a b c d s) ≡ false
    → (is_separator a b c d ≡ false) × (has_separator (cons b (cons c (cons d s))) ≡ false)
unfolding has_separator
has_separator-next a b c d s =
    elim (is_separator a b c d)
      as (λ x.
        elim x as (λ _. Bool) [ true ↦ true | false ↦ has_separator (cons b (cons c (cons d s))) ]
          ≡ false
        → (x ≡ false) × (has_separator (cons b (cons c (cons d s))) ≡ false)) [
          | true ↦ λ h. absurd (cc h)
          | false ↦ λ h. (refl, h)
        ]

-- A text without a separator is one part.
pub split-whole : (s : String) → has_separator s ≡ false → split s ≡ s ∷ []
unfolding split
split-whole (String.◌∷◌ a (String.◌∷◌ b (String.◌∷◌ c (String.◌∷◌ d s)))) h =
    let (now, later) = has_separator-next a b c d s h in
    split-next a b c d s now ∙ ap (onto_first a) (split-whole (cons b (cons c (cons d s))) later)
split-whole s h = refl

-- A text, the separator and another text.
abbrev pub separated : String → String → String
separated String.[] rest = four "-" "-" "-" "-" rest
separated (String.◌∷◌ c s) rest = cons c (separated s rest)

abbrev pub dashed : String → String
dashed String.[] = "---"
dashed (String.◌∷◌ c s) = cons c (dashed s)

-- A field in which no separator stands, not even across its end, is cut off by the separator.
pub split-separated :
    (field rest : String)
    → has_separator (dashed field) ≡ false
    → split (separated field rest) ≡ field ∷ split rest
split-separated String.[] rest h = split-here "-" "-" "-" "-" rest refl
split-separated (String.◌∷◌ a String.[]) rest h =
    let (now, later) = has_separator-next a "-" "-" "-" "" h in
    split-next a "-" "-" "-" (cons "-" rest) now
    ∙ ap (onto_first a) (split-separated String.[] rest later)
split-separated (String.◌∷◌ a (String.◌∷◌ b String.[])) rest h =
    let (now, later) = has_separator-next a b "-" "-" "-" h in
    split-next a b "-" "-" (cons "-" (cons "-" rest)) now
    ∙ ap (onto_first a) (split-separated (cons b String.[]) rest later)
split-separated (String.◌∷◌ a (String.◌∷◌ b (String.◌∷◌ c String.[]))) rest h =
    let (now, later) = has_separator-next a b c "-" "--" h in
    split-next a b c "-" (cons "-" (cons "-" (cons "-" rest))) now
    ∙ ap (onto_first a) (split-separated (cons b (cons c String.[])) rest later)
split-separated (String.◌∷◌ a (String.◌∷◌ b (String.◌∷◌ c (String.◌∷◌ d s)))) rest h =
    let (now, later) = has_separator-next a b c d (dashed s) h in
    split-next a b c d (separated s rest) now
    ∙ ap (onto_first a) (split-separated (cons b (cons c (cons d s))) rest later)

dashes-append : (rest : String) → str_append "----" rest ≡ four "-" "-" "-" "-" rest
dashes-append rest =
    cons-append "-" "---" rest
    ∙ ap (cons "-") (
        cons-append "-" "--" rest
        ∙ ap (cons "-") (
            cons-append "-" "-" rest
            ∙ ap (cons "-") (cons-append "-" "" rest ∙ ap (cons "-") (nil-append rest))))

pub separated-append : (s rest : String) → str_append s (str_append "----" rest) ≡ separated s rest
separated-append String.[] rest = nil-append (str_append "----" rest) ∙ dashes-append rest
separated-append (String.◌∷◌ c s) rest =
    cons-append c s (str_append "----" rest) ∙ ap (cons c) (separated-append s rest)

pub dashed-append : (s : String) → str_append s "---" ≡ dashed s
dashed-append String.[] = nil-append "---"
dashed-append (String.◌∷◌ c s) = cons-append c s "---" ∙ ap (cons c) (dashed-append s)

has_separator-later :
    (a b c d : Char) (s : String)
    → is_separator a b c d ≡ false
    → has_separator (cons b (cons c (cons d s))) ≡ false
    → has_separator (four a b c d s) ≡ false
unfolding has_separator
has_separator-later a b c d s now later = rw (has_separator, now) later

-- A field in which no separator stands, not even across its end, has none.
pub has_separator-dashed : (s : String) → has_separator (dashed s) ≡ false → has_separator s ≡ false
unfolding has_separator
has_separator-dashed (String.◌∷◌ a (String.◌∷◌ b (String.◌∷◌ c (String.◌∷◌ d s)))) h =
    let (now, later) = has_separator-next a b c d (dashed s) h in
    has_separator-later a b c d s now (has_separator-dashed (cons b (cons c (cons d s))) later)
has_separator-dashed s h = refl

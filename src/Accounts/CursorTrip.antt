-- ===== src/Accounts/CursorTrip.antt =====
-- Writing a cursor as a text and reading the text back.
use Prim.Native.Char.{Char, code}
use Prim.Native.Nat.{◌%◌}
use Prim.Native.String.{◌∷◌ as cons}
use text.Mathlib.TextEquality.{Char-path}
use smart_email_manager.Prelude.{
  ℕ, suc, ◌+◌, ◌-◌, ◌<◌, ◌≡◌, refl, sym, ap, ◌∙◌, String, true, false, inl, inr, some,
  some-injective, arith, ◌==◌, ==_iff, Bool-cases, str_eq, eq_iff,
}
use smart_email_manager.Problem.{ok}
use smart_email_manager.Accounts.Cursor.{
  AccountCursor, CursorCodec, text_length, add_equals, keep_mark, rstrip_equals, missing_marks,
  cursor_fields, field_of, encode_account_cursor, decode_account_cursor,
}

-- A text is its stripped part with the marks that were stripped.
abbrev IsPadded : String → String → Type 0
IsPadded body whole =
    (n : ℕ) × (whole ≡ add_equals body n) × (text_length whole ≡ text_length body + n)

is_mark : (c : Char) → (code c == 61) ≡ true → c ≡ "="
is_mark c h = Char-path c "=" ((==_iff (code c) 61).0 h)

keep_mark-IsPadded :
    (c : Char) (body whole : String)
    → IsPadded body whole
    → IsPadded (keep_mark c body) (cons c whole)
unfolding add_equals text_length
keep_mark-IsPadded c String.[] whole (n, e, l) = elim (Bool-cases (code c == 61)) [
  | inl h ↦ rw h (suc n, rw (e, is_mark c h) refl, omega (arith, l))
  | inr h ↦ rw h (n, rw e refl, omega (arith, l))
]
keep_mark-IsPadded c (String.◌∷◌ d s) whole (n, e, l) = (n, rw e refl, omega (arith, l))

rstrip_equals-IsPadded : (s : String) → IsPadded (rstrip_equals s) s
unfolding rstrip_equals add_equals text_length
rstrip_equals-IsPadded String.[] = (0, refl, refl)
rstrip_equals-IsPadded (String.◌∷◌ c s) =
    keep_mark-IsPadded c (rstrip_equals s) s (rstrip_equals-IsPadded s)

marks_back : (m n : ℕ) → (m + n) % 4 ≡ 0 → n < 4 → (4 - m % 4) % 4 ≡ n
marks_back m n h k = omega (arith, h, k)

module _ (codec : CursorCodec) where
  -- The marks that decoding adds are those that encoding took away.
  marked :
      (payload : String)
      → let body = rstrip_equals (codec.b64encode payload) in
        add_equals body (missing_marks body) ≡ codec.b64encode payload
  marked payload =
      let whole = codec.b64encode payload in
      let (n, e, l) = rstrip_equals-IsPadded whole in
      let few : n < 4 = omega (arith, l, codec.b64_padding payload) in
      let fits : (text_length (rstrip_equals whole) + n) % 4 ≡ 0 =
        ap (λ m. m % 4) (sym l) ∙ codec.b64_length payload in
      ap (add_equals (rstrip_equals whole))
        (marks_back (text_length (rstrip_equals whole)) n fits few)
      ∙ sym e

  pub encode-not_empty :
      (cursor : AccountCursor) → str_eq (encode_account_cursor codec cursor) "" ≡ false
  unfolding encode_account_cursor add_equals text_length
  encode-not_empty cursor =
      let payload = codec.dumps (cursor_fields codec cursor) in
      let body = rstrip_equals (codec.b64encode payload) in
      elim (Bool-cases (str_eq body "")) [
        | inr e ↦ e
        | inl e ↦
            let nothing : body ≡ "" = (eq_iff body "").0 e in
            let whole : codec.b64encode payload ≡ "" =
              sym (marked payload) ∙ ap (λ b. add_equals b (missing_marks b)) nothing in
            let read : some payload ≡ some "" =
              sym (codec.b64decode-b64encode payload)
              ∙ ap codec.b64decode whole
              ∙ codec.b64decode_empty in
            let gone = ap codec.loads (some-injective payload "" read) ∙ codec.loads_empty in
            absurd (cc (gone, codec.loads-dumps cursor.created_at cursor.account_id))
      ]

  pub decode-encode :
      (cursor : AccountCursor)
      → decode_account_cursor codec (encode_account_cursor codec cursor) ≡ ok cursor
  unfolding encode_account_cursor decode_account_cursor field_of
  decode-encode cursor =
      let payload = codec.dumps (cursor_fields codec cursor) in
      rw
        (
          marked payload,
          codec.b64decode-b64encode payload,
          codec.loads-dumps cursor.created_at cursor.account_id,
          codec.fromisoformat-isoformat cursor.created_at,
          codec.uuid_of-uuid_text cursor.account_id,
        )
        refl

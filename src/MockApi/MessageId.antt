-- ===== src/MockApi/MessageId.antt =====
-- The form of the identifiers that the mock makes up.
use go_message_dispatcher.Base.{
  ℕ, ◌%◌, ◌≤◌, ◌≡◌, refl, Bool, true, ◌&&◌, ◌||◌, leb, false, is_empty, is_empty-itoa, [], ◌∷◌,
  ◌++◌, map, arith, Text, bytes, length, length-map, All, get_or-All, IsDigit, itoa, itoa-IsDigit,
  length-itoa, Result, ok, err,
}
use go_message_dispatcher.MockApi.{
  Host, charset, id_length, id_char, fallback_mod, generate_message_id,
}

-- A lower-case letter or a digit.
abbrev pub is_plain : ℕ → Bool
is_plain c = leb b'a' c && leb c b'z' || leb b'0' c && leb c b'9'

abbrev pub IsPlain : ℕ → Type 0
IsPlain c = is_plain c ≡ true

charset-IsPlain : All IsPlain charset
charset-IsPlain = ground arith

id_char-IsPlain : (r : ℕ) → IsPlain (id_char r)
id_char-IsPlain r = get_or-All IsPlain 0 charset (r % length charset) charset-IsPlain (omega arith)

id_chars-IsPlain : (rs : Text) → All IsPlain (map id_char rs)
id_chars-IsPlain [] = tt
id_chars-IsPlain (r ∷ rs) = (id_char-IsPlain r, id_chars-IsPlain rs)

digits-IsPlain : (cs : Text) → All IsDigit cs → All IsPlain cs
digits-IsPlain [] h = tt
digits-IsPlain (c ∷ cs) (h, hs) = (ground arith, digits-IsPlain cs hs)

length_pos : (s : Text) → is_empty s ≡ false → 1 ≤ length s
length_pos [] h = absurd (cc)
length_pos (c ∷ s) h = omega arith

-- The part behind the prefix is short and plain.
abbrev pub HasForm : Text → Type 0
HasForm id =
    (rest : Text) × (id ≡ bytes "msg_" ++ rest)
    × All IsPlain rest
    × (1 ≤ length rest)
    × (length rest ≤ 9)

module _ {W : Type 0} (h : Host W) (w : W) where
  form_from :
      (r : Result Text)
      → (h.read_random id_length w).0 ≡ r
      → ((b : Text) → r ≡ ok b → length b ≡ id_length)
      → HasForm (generate_message_id h w).0
  unfolding generate_message_id
  form_from (ok b) e filled =
      let nine = filled b refl in
      rw (e, generate_message_id)
        (
          map id_char b,
          refl,
          id_chars-IsPlain b,
          omega (arith, length-map id_char b, nine),
          omega (arith, length-map id_char b, nine),
        )
  form_from (err x) e filled =
      let t = (h.unix_nano (h.read_random id_length w).1).0 % fallback_mod in
      rw (e, generate_message_id)
        (
          itoa t,
          refl,
          digits-IsPlain (itoa t) (itoa-IsDigit t),
          length_pos (itoa t) (is_empty-itoa t),
          (length-itoa 8 t (omega arith)).0,
        )

  -- If `rand.Read` fills the slice or fails, then `generateMessageID` gives `msg_` and one to nine
  -- characters, each a lower-case letter or a digit.
  pub generate_message_id-HasForm :
      ((b : Text) → (h.read_random id_length w).0 ≡ ok b → length b ≡ id_length)
      → HasForm (generate_message_id h w).0
  generate_message_id-HasForm filled = form_from (h.read_random id_length w).0 refl filled

-- ===== src/Tools/TestMessages/Loop.antt =====
-- What the loop of the tool hands to the database.
use go_message_dispatcher.Base.{
  ℕ, zero, suc, ◌+◌, ◌≤◌, ◌<◌, ◌^◌, ◌≡◌, refl, sym, ap, ◌∙◌, List, [], ◌∷◌, ◌++◌, arith, Text, ltb,
  leb, Bool-cases, inl, inr, length, All, ℤ, pos, negsuc, is_ok, Action, true, Result-cases,
}
use mathlib.Core.List.{append-nil, append_assoc}
use go_message_dispatcher.Tools.TestMessages.{
  Dice, random_phone, test_content, message_number, add_messages,
}
use go_message_dispatcher.Tools.TestMessages.Form.{IsInt, IsFair, IsSendable, made_up_IsSendable}

message_number-IsInt :
    (start_number : ℤ) (counter : ℕ)
    → IsInt start_number
    → counter < 2 ^ 63
    → IsInt (message_number start_number counter)
message_number-IsInt (pos n) counter h small = elim (Bool-cases (ltb (n + counter + 1) (2 ^ 63))) [
  | inl one ↦ rw one (ground arith)
  | inr over ↦ rw over (ground arith)
]
message_number-IsInt (negsuc n) counter h small = elim (Bool-cases (leb n counter)) [
  | inl one ↦ rw one (ground arith)
  | inr over ↦ rw over (ground arith)
]

-- The rows handed to the database, whether it takes them or not.
pub record IsHanding {W : Type 0} (d : Dice W) (insert : Text → Text → Action W (Unit {0}))
    : Type 0 where
  pub handed : W → List (Text × Text)
  pub handed-insert : (p c : Text) (w : W) → handed (insert p c w).1 ≡ handed w ++ (p, c) ∷ []
  pub handed-random_phone : (w : W) → handed (random_phone d w).1 ≡ handed w

module _ {W : Type 0} (d : Dice W) (insert : Text → Text → Action W (Unit {0}))
    (k : IsHanding d insert) (start_number : ℤ) (fair : IsFair d)
    (bounded : IsInt start_number) where
  open k use {handed}

  -- With a start number of 64 bits, every row that the loop hands to the database can be dispatched,
  -- also where the number wraps around. There are at most as many as were asked for, and exactly so
  -- many if the loop succeeds.
  pub add_messages_lem :
      (left counter : ℕ) (w : W)
      → counter + left < 2 ^ 63
      → (rows : List (Text × Text)) × (handed (add_messages d insert start_number left counter w).1
          ≡ handed w ++ rows)
        × All IsSendable rows
        × (length rows ≤ left)
        × (is_ok (add_messages d insert start_number left counter w).0 ≡ true → length rows ≡ left)
  unfolding add_messages
  add_messages_lem zero counter w small =
      ([], sym (append-nil (handed w)), tt, omega arith, (λ _. refl))
  add_messages_lem (suc left) counter w small =
      let phone = random_phone d w in
      let content = test_content (message_number start_number counter) in
      let row : Text × Text = (phone.0, content) in
      let good : IsSendable row =
        made_up_IsSendable d w _ fair
          (message_number-IsInt start_number counter bounded (omega arith)) in
      let one =
        k.handed-insert phone.0 content phone.1
        ∙ ap (λ l. l ++ row ∷ []) (k.handed-random_phone w) in
      elim (Result-cases (insert phone.0 content phone.1).0) [
        | inl (a, up) ↦
            let (rows, more, all, most, exact) =
              add_messages_lem left (counter + 1) (insert phone.0 content phone.1).1
                (omega arith) in
            rw (up, add_messages)
              (
                row ∷ rows,
                more ∙ ap (λ l. l ++ rows) one ∙ append_assoc (handed w) (row ∷ []) rows,
                (good, all),
                omega (arith, most),
                (λ done. ap suc (exact done)),
              )
        | inr (x, down) ↦
            rw (down, add_messages) (row ∷ [], one, (good, tt), omega arith, (λ done. absurd (cc)))
      ]

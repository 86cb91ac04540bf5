-- ===== src/Base/Base64.antt =====
-- `base64.URLEncoding.EncodeToString` (RFC 4648, with padding), and a reader of what it writes.
use Prim.Native.Nat.{ℕ, ◌+◌, ◌-◌, ◌*◌, ◌/◌, ◌%◌, ◌<◌}
use mathlib.Core.Path.{◌≡◌, refl, sym, ap, ◌∙◌}
use mathlib.Core.Bool.{false}
use mathlib.Core.List.{[], ◌∷◌}
use native.Mathlib.Omega.{arith}
use go_message_dispatcher.Base.Tests.{ltb, ◌==◌, if◌then◌else◌}
use go_message_dispatcher.Base.Lists.{All}
use go_message_dispatcher.Base.Bytes.{Text}

-- `A` to `Z`, `a` to `z`, `0` to `9`, `-`, `_`
symbol : ℕ → ℕ
symbol n =
    if ltb n 26
    then b'A' + n
    else if ltb n 52
    then b'a' + (n - 26)
    else if ltb n 62
    then b'0' + (n - 52)
    else if n == 62
    then b'-'
    else b'_'

-- Three bytes become four symbols; one or two bytes that are left are padded.
unfoldable pub base64 : Text → Text
unfolding symbol
base64 [] = []
base64 (a ∷ []) = symbol (a / 4) ∷ symbol (a % 4 * 16) ∷ b'=' ∷ b'=' ∷ []
base64 (a ∷ b ∷ []) =
    symbol (a / 4) ∷ symbol (a % 4 * 16 + b / 16) ∷ symbol (b % 16 * 4) ∷ b'=' ∷ []
base64 (a ∷ b ∷ c ∷ rest) =
    symbol (a / 4)
    ∷ symbol (a % 4 * 16 + b / 16)
    ∷ symbol (b % 16 * 4 + c / 64)
    ∷ symbol (c % 64)
    ∷ base64 rest

digit : ℕ → ℕ
digit c =
    if c == b'-'
    then 62
    else if c == b'_'
    then 63
    else if ltb c 58
    then c - b'0' + 52
    else if ltb c 91
    then c - b'A'
    else c - b'a' + 26

-- The bytes of four symbols, with padding at the end.
group : ℕ → ℕ → ℕ → ℕ → Text → Text
group p q r s rest =
    if s == b'='
    then if r == b'='
      then (digit p * 4 + digit q / 16) ∷ []
      else (digit p * 4 + digit q / 16) ∷ (digit q % 16 * 16 + digit r / 4) ∷ []
    else (digit p * 4 + digit q / 16)
      ∷ (digit q % 16 * 16 + digit r / 4)
      ∷ (digit r % 4 * 64 + digit s)
      ∷ rest

pub unbase64 : Text → Text
unfolding group
unbase64 (p ∷ q ∷ r ∷ s ∷ rest) = let more = unbase64 rest in group p q r s more
unbase64 _ = []

digit-symbol : (n : ℕ) → n < 64 → digit (symbol n) ≡ n
unfolding digit symbol
digit-symbol n h = ground arith

symbol-ne-pad : (n : ℕ) → n < 64 → (symbol n == b'=') ≡ false
unfolding symbol
symbol-ne-pad n h = ground arith

abbrev pub IsByte : ℕ → Type 0
IsByte c = c < 256

pair_eq : {a b c d : ℕ} → a ≡ c → b ≡ d → ◌≡◌ {A = Text} (a ∷ b ∷ []) (c ∷ d ∷ [])
pair_eq e f = cc

triple_eq :
    {a b c d e f : ℕ} {s t : Text}
    → a ≡ d
    → b ≡ e
    → c ≡ f
    → s ≡ t
    → ◌≡◌ {A = Text} (a ∷ b ∷ c ∷ s) (d ∷ e ∷ f ∷ t)
triple_eq p q r u = cc

-- What has been encoded is read back.
pub unbase64-base64 : (s : Text) → All IsByte s → unbase64 (base64 s) ≡ s
unfolding unbase64 base64
unbase64-base64 [] h = refl
unbase64-base64 (a ∷ []) (ha, _) =
    rw (digit-symbol (a / 4) (omega arith), digit-symbol (a % 4 * 16) (omega arith))
      (ap (λ x. x ∷ []) (omega arith))
unbase64-base64 (a ∷ b ∷ []) (ha, (hb, _)) =
    rw
      (
        symbol-ne-pad (b % 16 * 4) (omega arith),
        digit-symbol (a / 4) (omega arith),
        digit-symbol (a % 4 * 16 + b / 16) (omega arith),
        digit-symbol (b % 16 * 4) (omega arith),
      )
      (pair_eq (omega arith) (omega arith))
unbase64-base64 (a ∷ b ∷ c ∷ rest) (ha, (hb, (hc, hs))) =
    rw
      (
        group,
        symbol-ne-pad (c % 64) (omega arith),
        digit-symbol (a / 4) (omega arith),
        digit-symbol (a % 4 * 16 + b / 16) (omega arith),
        digit-symbol (b % 16 * 4 + c / 64) (omega arith),
        digit-symbol (c % 64) (omega arith),
        unbase64-base64 rest hs,
      )
      (triple_eq (omega arith) (omega arith) (omega arith) refl)

pub base64_injective : (s t : Text) → All IsByte s → All IsByte t → base64 s ≡ base64 t → s ≡ t
base64_injective s t hs ht e = sym (unbase64-base64 s hs) ∙ ap unbase64 e ∙ unbase64-base64 t ht

-- ===== src/Json/Decode/Utf8.antt =====
-- `data.decode("utf-8")`: the strict decoder, which refuses overlong forms, surrogates and points
-- above U+10FFFF.
use aitp_verifier_py.Prelude.{
  ℕ, zero, suc, ◌+◌, ◌-◌, ◌*◌, Option, none, some, [], ◌∷◌, ltb, ◌==◌, if◌then◌else◌,
}
use aitp_verifier_py.Text.{Text, Bytes, in_range}

-- Between points, or with bytes of a point still missing: how many, its value so far, and the range
-- of the next byte.
pub data State : Type 0 where
  ready broken : State
  pending : ℕ → ℕ → ℕ → ℕ → State

lead : ℕ → State
lead b =
    if in_range 0xC2 0xDF b
    then pending 0 (b - 0xC0) 0x80 0xBF
    else if b == 0xE0
    then pending 1 0 0xA0 0xBF
    else if b == 0xED
    then pending 1 0xD 0x80 0x9F
    else if in_range 0xE1 0xEF b
    then pending 1 (b - 0xE0) 0x80 0xBF
    else if b == 0xF0
    then pending 2 0 0x90 0xBF
    else if b == 0xF4
    then pending 2 4 0x80 0x8F
    else if in_range 0xF1 0xF3 b
    then pending 2 (b - 0xF0) 0x80 0xBF
    else broken

-- The next state, and the point that the byte completes.
utf8_step : State → ℕ → State × Option ℕ
unfolding lead
utf8_step ready b = if ltb b 0x80 then (ready, some b) else (lead b, none)
utf8_step (pending zero acc lo hi) b =
    if in_range lo hi b then (ready, some (acc * 0x40 + (b - 0x80))) else (broken, none)
utf8_step (pending (suc n) acc lo hi) b =
    if in_range lo hi b
    then (pending n (acc * 0x40 + (b - 0x80)) 0x80 0xBF, none)
    else (broken, none)
utf8_step broken b = (broken, none)

emit : Option ℕ → Option Text → Option Text
emit p none = none
emit none (some t) = some t
emit (some c) (some t) = some (c ∷ t)

decode_from : State → Bytes → Option Text
unfolding utf8_step emit
decode_from ready [] = some []
decode_from s [] = none
decode_from s (b ∷ bs) = emit (utf8_step s b).1 (decode_from (utf8_step s b).0 bs)

unfoldable pub decode_utf8 : Bytes → Option Text
unfolding decode_from
decode_utf8 = decode_from ready

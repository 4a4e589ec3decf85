-- ===== src/HiChain/Hex.antt =====
-- encoding/hex as hexToBytes and bytesToHex of pkg/device_auth/hichain/pake_v1_ec.go call it: strings are
-- the bytes of their characters.
use dsoftbus_go.Base.{
  ℕ, ◌+◌, ◌-◌, ◌*◌, ◌/◌, ◌%◌, ◌<◌, ◌≡◌, refl, ◌&&◌, if◌then◌else◌, ltb, leb, [], ◌∷◌, Option, none,
  some, All, arith,
}
use dsoftbus_go.Base.Bytes.{IsByte}
use dsoftbus_go.Base.Text.{Bytes}

-- '0' is 48, 'a' is 97, 'A' is 65.
abbrev hex_digit : ℕ → ℕ
hex_digit d = if ltb d 10 then 48 + d else 87 + d

abbrev digit_value : ℕ → Option ℕ
digit_value c =
    if leb 48 c && leb c 57
    then some (c - 48)
    else if leb 97 c && leb c 102
    then some (c - 87)
    else if leb 65 c && leb c 70
    then some (c - 55)
    else none

unfoldable pub bytes_to_hex : Bytes → Bytes
bytes_to_hex [] = []
bytes_to_hex (b ∷ bs) = hex_digit (b / 16) ∷ hex_digit (b % 16) ∷ bytes_to_hex bs

abbrev join_digits : Option ℕ → Option ℕ → Option Bytes → Option Bytes
join_digits (some hi) (some lo) (some bs) = some ((hi * 16 + lo) ∷ bs)
join_digits _ _ _ = none

-- `none` for a character that is no digit and for an odd length.
unfoldable pub hex_to_bytes : Bytes → Option Bytes
hex_to_bytes [] = some []
hex_to_bytes (c ∷ []) = none
hex_to_bytes (c ∷ d ∷ cs) = join_digits (digit_value c) (digit_value d) (hex_to_bytes cs)

digit_value-hex_digit : (d : ℕ) → d < 16 → digit_value (hex_digit d) ≡ some d
digit_value-hex_digit d h = ground arith

-- hexToBytes gives back the bytes that bytesToHex has written, whatever they are.
pub hex_to_bytes-bytes_to_hex :
    (bs : Bytes) → All IsByte bs → hex_to_bytes (bytes_to_hex bs) ≡ some bs
unfolding bytes_to_hex hex_to_bytes
hex_to_bytes-bytes_to_hex [] h = refl
hex_to_bytes-bytes_to_hex (b ∷ bs) (hb, hs) =
    let joined : b / 16 * 16 + b % 16 ≡ b = omega arith in
    rw
      (
        digit_value-hex_digit (b / 16) (omega arith),
        digit_value-hex_digit (b % 16) (omega arith),
        hex_to_bytes-bytes_to_hex bs hs,
        joined,
      )
      refl

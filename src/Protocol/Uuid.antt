-- ===== src/Protocol/Uuid.antt =====
-- `newUUID` of internal/protocol/envelope.go, over the 16 bytes that crypto/rand gives.
use Prim.Native.Nat.{bit_and, bit_or}
use pfsense_agent.Base.{ℕ, zero, suc, ◌+◌, ◌/◌, ◌%◌, String, ◌<>◌, ◌==◌, if◌then◌else◌}

-- `b[6] = (b[6] & 0x0f) | 0x40` and `b[8] = (b[8] & 0x3f) | 0x80`
unfoldable pub versioned : (ℕ → ℕ) → ℕ → ℕ
versioned b i =
    if i == 6
    then bit_or (bit_and (b 6) 0x0F) 0x40
    else if i == 8
    then bit_or (bit_and (b 8) 0x3F) 0x80
    else b i

unfoldable pub hex_digit : ℕ → String
hex_digit n =
    if n == 0
    then "0"
    else if n == 1
    then "1"
    else if n == 2
    then "2"
    else if n == 3
    then "3"
    else if n == 4
    then "4"
    else if n == 5
    then "5"
    else if n == 6
    then "6"
    else if n == 7
    then "7"
    else if n == 8
    then "8"
    else if n == 9
    then "9"
    else if n == 10
    then "a"
    else if n == 11
    then "b"
    else if n == 12
    then "c"
    else if n == 13
    then "d"
    else if n == 14
    then "e"
    else "f"

-- `%x` of the bytes from `i` on, `n` of them.
hex_bytes : (ℕ → ℕ) → ℕ → ℕ → String
unfolding hex_digit
hex_bytes b i zero = ""
hex_bytes b i (suc n) = (hex_digit (b i / 16) <> hex_digit (b i % 16)) <> hex_bytes b (i + 1) n

unfoldable pub new_uuid : (ℕ → ℕ) → String
unfolding versioned hex_bytes
new_uuid random =
    let b = versioned random in
    hex_bytes b 0 4
    <> ("-"
        <> (hex_bytes b 4 2
            <> ("-"
                <> (hex_bytes b 6 2 <> ("-" <> (hex_bytes b 8 2 <> ("-" <> hex_bytes b 10 6)))))))

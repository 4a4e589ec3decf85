-- ===== src/Coap.antt =====
-- pkg/discovery/coap/coap_adapter.go and coap_common.go: the codec of discovery messages. A buffer that
-- is read with its length is the list of those bytes; `out_of_range` is the panic of a Go slice or index,
-- `out_of_fuel` has no counterpart in the code. The options of a packet are its first OptionsNum ones.
pub mod Options
pub mod WrittenOptions
pub mod Encoded
pub mod RoundTrip
pub mod Termination
pub mod Capacity
pub mod Reply
pub mod Runs
use Prim.Native.Nat.{bit_and, bit_or}
use dsoftbus_go.Base.{
  ℕ, zero, suc, ◌+◌, ◌-◌, ◌*◌, ◌/◌, ◌%◌, ◌^◌, ◌==◌, nat_eq, if◌then◌else◌, ltb, leb, List, [], ◌∷◌,
  ◌++◌, length, take, drop, Result, ok, err, ◌>>=◌,
}
use dsoftbus_go.Base.Bytes.{be16_put, be16_get}

abbrev pub coap_version : ℕ
coap_version = 1

abbrev pub coap_max_option : ℕ
coap_max_option = 16

abbrev pub payload_marker : ℕ
payload_marker = 0xFF

pub record CoapHeader : Type 0 where
  pub ver : ℕ
  pub msg_type : ℕ
  pub token_len : ℕ
  pub code : ℕ
  pub msg_id : ℕ

pub record CoapBuffer : Type 0 where
  pub buffer : List ℕ
  pub len : ℕ

pub record CoapOption : Type 0 where
  pub num : ℕ
  pub option_buf : List ℕ
  pub len : ℕ

pub record CoapPacket : Type 0 where
  pub header : CoapHeader
  pub token : CoapBuffer
  pub options : List CoapOption
  pub payload : CoapBuffer

pub record CoapPacketParam : Type 0 where
  pub msg_type : ℕ
  pub code : ℕ
  pub msg_id : ℕ
  pub options : List CoapOption
  pub options_num : ℕ

pub data CoapError : Type 0 where
  header_invalid_short ver_invalid token_invalid_short opt_invalid_big : CoapError
  opt_invalid_len invalid_pkt bad_req failed out_of_range out_of_fuel : CoapError

-- g_msgId is an uint16; the id 0 is left out.
unfoldable pub coap_soft_bus_msg_id : ℕ → ℕ
coap_soft_bus_msg_id g_msg_id =
    let next = (g_msg_id + 1) % 2 ^ 16 in if next == 0 then (next + 1) % 2 ^ 16 else next

-- The bytes written so far, in a buffer of the capacity.
unfoldable pub write_byte : ℕ → ℕ → List ℕ → Result CoapError (List ℕ)
write_byte cap b out = if leb cap (length out) then err failed else ok (out ++ b ∷ [])

unfoldable pub write_bytes : ℕ → List ℕ → List ℕ → Result CoapError (List ℕ)
write_bytes cap bytes out =
    if ltb cap (length out + length bytes) then err failed else ok (out ++ bytes)

-- The nibble and the bytes behind it, of a delta or of a length.
unfoldable pub extended : ℕ → ℕ × List ℕ
extended v =
    if ltb v 13
    then (v, [])
    else if ltb v (13 + 256)
    then (13, (v - 13) ∷ [])
    else (14, be16_put (v - 269))

-- `buffer[:len]`.
unfoldable pub slice : List ℕ → ℕ → Result CoapError (List ℕ)
slice buffer len = if ltb (length buffer) len then err out_of_range else ok (take len buffer)

-- `opt.Num - prevOptionNum` in uint16.
abbrev pub option_delta : ℕ → ℕ → ℕ
option_delta prev num = (num + 2 ^ 16 - prev) % 2 ^ 16

unfoldable pub write_option : ℕ → ℕ → CoapOption → List ℕ → Result CoapError (List ℕ)
write_option cap prev opt out =
    let (delta_nib, delta_ext) = extended (option_delta prev opt.num) in
    let (len_nib, len_ext) = extended opt.len in
    write_byte cap (bit_or (delta_nib * 2 ^ 4 % 256) len_nib) out
    >>= write_bytes cap delta_ext
    >>= write_bytes cap len_ext
    >>= λ (written : List ℕ).
        slice opt.option_buf opt.len >>= λ (value : List ℕ). write_bytes cap value written

-- The loop over `param.Options[i]` for `i < OptionsNum`.
unfoldable pub write_options : ℕ → ℕ → ℕ → List CoapOption → List ℕ → Result CoapError (List ℕ)
write_options cap zero prev opts out = ok out
write_options cap (suc n) prev [] out = err out_of_range
write_options cap (suc n) prev (opt ∷ opts) out =
    write_option cap prev opt out >>= write_options cap n opt.num opts

unfoldable pub write_payload : ℕ → CoapBuffer → List ℕ → Result CoapError (List ℕ)
write_payload cap payload out =
    if payload.len == 0
    then ok out
    else write_byte cap payload_marker out >>= λ (marked : List ℕ).
        slice payload.buffer payload.len >>= λ (bytes : List ℕ). write_bytes cap bytes marked

unfoldable pub write_head : ℕ → ℕ → CoapPacketParam → Result CoapError (List ℕ)
write_head cap token_len param =
    write_byte cap
      (bit_or (bit_or (coap_version * 2 ^ 6 % 256) (param.msg_type * 2 ^ 4 % 256)) token_len) []
    >>= write_byte cap (param.code % 256)
    >>= write_bytes cap (be16_put param.msg_id)

unfoldable pub write_message :
    ℕ → ℕ → CoapPacketParam → CoapBuffer → CoapBuffer → Result CoapError (List ℕ)
write_message cap token_len param token payload =
    write_head cap token_len param >>= λ (head : List ℕ).
    slice token.buffer token.len >>= λ (bytes : List ℕ).
    write_bytes cap bytes head
    >>= write_options cap param.options_num 0 param.options
    >>= write_payload cap payload

-- COAP_SoftBusEncode: what is written into an empty buffer of the capacity.
unfoldable pub encode : CoapPacketParam → CoapBuffer → CoapBuffer → ℕ → Result CoapError (List ℕ)
encode param token payload cap =
    let token_len = token.len % 256 in
    if ltb 8 token_len
    then err token_invalid_short
    else write_message cap token_len param token payload

-- The value of a nibble, from the bytes behind the option head, and the bytes that are left.
unfoldable pub read_extended : ℕ → List ℕ → Result CoapError (ℕ × List ℕ)
read_extended nib bytes =
    if nib == 13
    then (elim bytes [ [] ↦ err opt_invalid_len | b ∷ rest ↦ ok (13 + b, rest) ])
    else if nib == 14
    then (elim bytes [
      | [] ↦ err opt_invalid_len
      | hi ∷ rest ↦ elim rest [
        | [] ↦ err opt_invalid_len
        | lo ∷ rest' ↦ ok (269 + be16_get hi lo, rest')
      ]
    ])
    else if nib == 15
    then err invalid_pkt
    else ok (nib, bytes)

unfoldable pub read_value : ℕ → ℕ → List ℕ → Result CoapError (CoapOption × List ℕ)
read_value num len bytes =
    if ltb (length bytes) len
    then err opt_invalid_len
    else ok (record { num = num; option_buf = take len bytes; len = len }, drop len bytes)

-- One option behind its head byte.
unfoldable pub read_option : ℕ → ℕ → List ℕ → Result CoapError (CoapOption × List ℕ)
read_option prev h bytes =
    read_extended (bit_and (h / 2 ^ 4) 0x0F) bytes >>= λ (delta : ℕ × List ℕ).
    read_extended (bit_and h 0x0F) delta.1 >>= λ (len : ℕ × List ℕ).
    read_value ((prev + delta.0) % 2 ^ 16) len.0 len.1

abbrev pub with_option :
    CoapOption → List CoapOption × List ℕ → Result CoapError (List CoapOption × List ℕ)
with_option opt (opts, payload) = ok (opt ∷ opts, payload)

-- The options, and the bytes behind the marker. Every turn takes a byte: the length is enough fuel.
unfoldable pub read_options : ℕ → ℕ → ℕ → List ℕ → Result CoapError (List CoapOption × List ℕ)
read_options fuel prev seen [] = ok ([], [])
read_options zero prev seen (h ∷ bytes) = err out_of_fuel
read_options (suc fuel) prev seen (h ∷ bytes) =
    if h == payload_marker
    then ok ([], bytes)
    else if leb coap_max_option seen
    then err opt_invalid_big
    else read_option prev h bytes >>= λ (next : CoapOption × List ℕ).
        read_options fuel next.0.num (seen + 1) next.1 >>= with_option next.0

-- parseOptionsAndPayload: a message that ends with its token keeps the packet's options, and a message
-- without payload keeps the packet's payload.
unfoldable pub parse_options_and_payload : CoapPacket → List ℕ → Result CoapError CoapPacket
parse_options_and_payload pkt [] = ok pkt
parse_options_and_payload pkt (h ∷ bytes) =
    read_options (length (h ∷ bytes)) 0 0 (h ∷ bytes) >>= λ (found : List CoapOption × List ℕ).
    ok (record pkt {
      options = found.0;
      payload =
          if length found.1 == 0
          then pkt.payload
          else record { buffer = found.1; len = length found.1 };
    })

unfoldable pub decode : CoapPacket → List ℕ → Result CoapError CoapPacket
decode pkt (first ∷ code ∷ hi ∷ lo ∷ bytes) =
    let ver = bit_and (first / 2 ^ 6) 0x03 in
    let token_len = bit_and first 0x0F in
    if ver == coap_version
    then (if ltb 8 token_len
        then err token_invalid_short
        else if ltb (length bytes) token_len
        then err token_invalid_short
        else parse_options_and_payload
            (record pkt {
              header = record {
                ver = ver;
                msg_type = bit_and (first / 2 ^ 4) 0x03;
                token_len = token_len;
                code = code;
                msg_id = be16_get hi lo;
              };
              token = record { buffer = take token_len bytes; len = token_len };
            })
            (drop token_len bytes))
    else err ver_invalid
decode pkt _ = err header_invalid_short

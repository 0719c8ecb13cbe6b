-- ===== src/Wrapper/StrKey/RoundTrip.antt =====
-- Keys and their texts determine each other.
use Prim.Native.Nat.{bit_xor}
use pakta.Base.{
  ℕ, ◌+◌, ◌*◌, ◌/◌, ◌%◌, ◌^◌, ◌<◌, true, List, [], ◌∷◌, ◌++◌, ◌≡◌, sym, ◌∙◌, ap, subst, eqb, arith,
  length, length-append, take, take-append, length-take, split_two, get_elem?, get_elem?-append,
  get_or, All-append, All-take, Bool-cases, inl, inr,
}
use pakta.Base.Bytes.{AreBelow, get_elem?-AreBelow}
use pakta.Base.Outcome.{ok, Outcome-cases}
use pakta.Wrapper.StrKey.{
  base32_decode, base32_encode, check_decoded, decode_str_key, encode_str_key, crc16_xmodem,
  crc_loop, crc_shifts,
}
use pakta.Wrapper.StrKey.Base32.{base32_encode-base32_decode, base32_decode-base32_encode}

crc_loop-lt : (crc : ℕ) (bytes : List ℕ) → crc_loop crc bytes < 2 ^ 16
unfolding crc_loop
crc_loop-lt crc [] = omega arith
crc_loop-lt crc (byte ∷ bytes) = crc_loop-lt (crc_shifts 8 (bit_xor crc (byte * 2 ^ 8))) bytes

abbrev low_byte : ℕ → List ℕ → ℕ
low_byte version payload = crc16_xmodem (version ∷ payload) % 2 ^ 8

abbrev high_byte : ℕ → List ℕ → ℕ
high_byte version payload = crc16_xmodem (version ∷ payload) / 2 ^ 8 % 2 ^ 8

abbrev rest_of : ℕ → List ℕ → List ℕ
rest_of version payload = payload ++ low_byte version payload ∷ high_byte version payload ∷ []

module _ (version : ℕ) (payload : List ℕ) (size : length payload ≡ 32) where
  length-rest_of : length (version ∷ rest_of version payload) ≡ 35
  length-rest_of = omega (
    arith,
    size,
    length-append payload (low_byte version payload ∷ high_byte version payload ∷ []),
  )

  take-rest_of : take 32 (rest_of version payload) ≡ payload
  take-rest_of =
      ap (λ n. take n (rest_of version payload)) (sym size)
      ∙ take-append payload (low_byte version payload ∷ high_byte version payload ∷ [])

  check_at :
      (i : ℕ)
      → get_elem? (rest_of version payload) (32 + i)
        ≡ get_elem? (low_byte version payload ∷ high_byte version payload ∷ []) i
  check_at i =
      ap (λ n. get_elem? (rest_of version payload) (n + i)) (sym size)
      ∙ get_elem?-append payload (low_byte version payload ∷ high_byte version payload ∷ []) i

  check_decoded-rest_of : check_decoded version (version ∷ rest_of version payload) ≡ ok payload
  unfolding check_decoded
  check_decoded-rest_of =
      let small = crc_loop-lt 0 (version ∷ payload) in
      let kind : eqb version version ≡ true = ground arith in
      let sum : eqb (low_byte version payload + high_byte version payload * 2 ^ 8)
            (crc16_xmodem (version ∷ payload))
          ≡ true =
        ground arith in
      let low = check_at 0 in let high = check_at 1 in cc (kind, sum, low, high, take-rest_of)

-- A key of 32 bytes is read back from its text, for every kind of key.
pub decode_str_key-encode_str_key :
    (version : ℕ) (payload : List ℕ)
    → version < 256
    → length payload ≡ 32
    → AreBelow 256 payload
    → (text : List ℕ) × (encode_str_key version payload ≡ ok text)
      × (decode_str_key version text ≡ ok payload)
unfolding encode_str_key decode_str_key
decode_str_key-encode_str_key version payload hv size below =
    let all_below =
      All-append (λ d. d < 256) payload (low_byte version payload ∷ high_byte version payload ∷ [])
        below (omega arith, (omega arith, tt)) in
    let read =
      base32_decode-base32_encode (version ∷ rest_of version payload)
        (length-rest_of version payload size) (hv, all_below) in
    let fits : eqb (length payload) 32 ≡ true = ground arith in
    let checked = check_decoded-rest_of version payload size in
    (base32_encode (version ∷ rest_of version payload), cc fits, cc (read, checked))

rest_of_read :
    (version : ℕ) (rest payload : List ℕ)
    → length rest ≡ 34
    → AreBelow 256 rest
    → take 32 rest ≡ payload
    → get_or 0 (get_elem? rest 32) + get_or 0 (get_elem? rest 33) * 2 ^ 8
      ≡ crc16_xmodem (version ∷ payload)
    → rest ≡ rest_of version payload
rest_of_read version rest payload size below same sum =
    let low_small = get_elem?-AreBelow 256 rest 32 (omega arith) below in
    let high_small = get_elem?-AreBelow 256 rest 33 (omega arith) below in
    let low : get_or 0 (get_elem? rest 32) ≡ low_byte version payload =
      omega (arith, sum, low_small, high_small) in
    let high : get_or 0 (get_elem? rest 33) ≡ high_byte version payload =
      omega (arith, sum, low_small, high_small) in
    let split = split_two 0 32 rest size in cc (split, same, low, high)

-- What the check of 35 bytes accepts is a key with its version byte and checksum.
check_decoded-ok :
    (version : ℕ) (bytes payload : List ℕ)
    → length bytes ≡ 35
    → AreBelow 256 bytes
    → check_decoded version bytes ≡ ok payload
    → (length payload ≡ 32) × (AreBelow 256 payload) × (bytes ≡ version ∷ rest_of version payload)
unfolding check_decoded
check_decoded-ok version [] payload size below h = cc h
check_decoded-ok version (first ∷ rest) payload size below h =
    elim (Bool-cases (eqb first version)) [
      | inr other ↦ cc (h, other)
      | inl kind ↦
          let low = get_or 0 (get_elem? rest 32) in
          let high = get_or 0 (get_elem? rest 33) in
          elim (Bool-cases (eqb (low + high * 2 ^ 8) (crc16_xmodem (first ∷ take 32 rest)))) [
            | inr corrupt ↦ cc (h, kind, corrupt)
            | inl sum ↦
                let same : take 32 rest ≡ payload = cc (h, kind, sum) in
                let same_kind : first ≡ version = ground arith in
                let checked : low + high * 2 ^ 8 ≡ crc16_xmodem (first ∷ take 32 rest) =
                  ground arith in
                let tail =
                  rest_of_read version rest payload (omega arith) below.1 same
                    (cc (checked, same, same_kind)) in
                (
                  ap length (sym same) ∙ length-take 32 rest (omega arith),
                  subst (AreBelow 256) same (All-take (λ d. d < 256) 32 rest below.1),
                  cc (same_kind, tail),
                )
          ]
    ]

-- A text that decodes to a key is the one text of that key.
pub encode_str_key-decode_str_key :
    (version : ℕ) (text payload : List ℕ)
    → decode_str_key version text ≡ ok payload
    → (length payload ≡ 32) × (AreBelow 256 payload) × (encode_str_key version payload ≡ ok text)
unfolding encode_str_key decode_str_key
encode_str_key-decode_str_key version text payload h = elim (Outcome-cases (base32_decode text)) [
  | inl (e, failed) ↦ cc (h, failed)
  | inr (bytes, decoded) ↦
      let (size, below, written) = base32_encode-base32_decode text bytes decoded in
      let (payload_size, payload_below, same) =
        check_decoded-ok version bytes payload size below (cc (h, decoded)) in
      let fits : eqb (length payload) 32 ≡ true = ground arith in
      (payload_size, payload_below, cc (fits, same, written))
]

-- ===== src/ProofHash/Jcs.antt =====
-- packages/proof-hash/src/jcs.ts: the canonical JSON text of a value, and the hash of a proof. A text is
-- the list of its UTF-16 code units; an object's members are in the order of its keys. The paths in
-- messages are left out.
pub mod Order
pub mod Reorder
mod Examples
use pakta.Base.{
  ℕ, ◌+◌, ◌-◌, ◌*◌, ◌/◌, ◌%◌, ◌^◌, String, Bool, true, false, not, ◌&&◌, ◌||◌, List, [], ◌∷◌, ◌++◌,
  ltb, leb, eqb, if◌then◌else◌, any, sort_by, length,
}
use pakta.Base.Int.{ℤ, pos_part, neg_part}
use pakta.Base.Show.{show_ℤ}
use pakta.Base.Pattern.{codes}
use pakta.Base.Outcome.{Outcome, ok, threw, other, require, ◌>>=◌, ◌>>◌}

-- A `number`: a whole one, or any other, NaN and the infinities included.
pub data Number : Type 0 where
  whole : ℤ → Number
  fractional : Number

-- `JsonValue`, and `undefined`, which an object may hold and `serialize` refuses.
mutual
  pub data JsonValue : Type 0 where
    null : JsonValue
    undefined : JsonValue
    boolean : Bool → JsonValue
    number : Number → JsonValue
    string : List ℕ → JsonValue
    array : Items → JsonValue
    object : Members → JsonValue

  pub data Items : Type 0 where
    no_items : Items
    item : JsonValue → Items → Items

  pub data Members : Type 0 where
    no_members : Members
    member : List ℕ → JsonValue → Members → Members

abbrev is_high : ℕ → Bool
is_high unit = leb 0xd800 unit && leb unit 0xdbff

abbrev is_low : ℕ → Bool
is_low unit = leb 0xdc00 unit && leb unit 0xdfff

-- `hasLoneSurrogate`: a high unit takes the low one behind it along.
unfoldable pub has_lone_surrogate : List ℕ → Bool
has_lone_surrogate [] = false
has_lone_surrogate (unit ∷ []) = is_high unit || is_low unit
has_lone_surrogate (unit ∷ next ∷ rest) =
    let behind_pair = has_lone_surrogate rest in
    let behind_unit = has_lone_surrogate (next ∷ rest) in
    if is_high unit
    then (if is_low next then behind_pair else true)
    else if is_low unit
    then true
    else behind_unit

abbrev hex_char : ℕ → ℕ
hex_char d = if ltb d 10 then b'0' + d else 87 + d

-- `JSON.stringify` of one code unit.
abbrev escape : ℕ → List ℕ
escape unit =
    if eqb unit 34 || eqb unit 92
    then 92 ∷ unit ∷ []
    else if eqb unit 8
    then 92 ∷ b'b' ∷ []
    else if eqb unit 9
    then 92 ∷ b't' ∷ []
    else if eqb unit 10
    then 92 ∷ b'n' ∷ []
    else if eqb unit 12
    then 92 ∷ b'f' ∷ []
    else if eqb unit 13
    then 92 ∷ b'r' ∷ []
    else if ltb unit 32
    then codes "\\u00" ++ hex_char (unit / 16) ∷ hex_char (unit % 16) ∷ []
    else unit ∷ []

abbrev escape_all : List ℕ → List ℕ
escape_all [] = []
escape_all (unit ∷ rest) = escape unit ++ escape_all rest

unfoldable pub serialize_string : List ℕ → Outcome (List ℕ)
serialize_string value = do
  require (not (has_lone_surrogate value)) (other "string contains an unpaired surrogate")
  ok (34 ∷ escape_all value ++ 34 ∷ [])

unfoldable pub serialize_number : Number → Outcome (List ℕ)
serialize_number fractional = threw (other "only integers are canonicalizable")
serialize_number (whole z) = do
  require (leb (pos_part z + neg_part z) (2 ^ 53 - 1)) (other "integer is outside the safe range")
  ok (codes (show_ℤ z))

-- The elements of a `map`, in order: the first that throws ends it.
abbrev pub all_parts : List (Outcome (List ℕ)) → Outcome (List (List ℕ))
all_parts [] = ok []
all_parts (part ∷ parts) = do text ← part; rest ← all_parts parts; ok (text ∷ rest)

-- `join(",")`
abbrev pub join_comma : List (List ℕ) → List ℕ
join_comma [] = []
join_comma (text ∷ []) = text
join_comma (text ∷ rest) = text ++ b',' ∷ join_comma rest

-- The default order of `sort`: by code units.
abbrev pub before_text : List ℕ → List ℕ → Bool
before_text [] [] = false
before_text [] (y ∷ ys) = true
before_text (x ∷ xs) [] = false
before_text (x ∷ xs) (y ∷ ys) =
    if ltb x y then true else if ltb y x then false else before_text xs ys

-- A member by its key, and what its text is or throws.
pub record MemberText : Type 0 where
  pub key : List ℕ
  pub text : Outcome (List ℕ)

abbrev pub before_member : MemberText → MemberText → Bool
before_member a b = before_text a.key b.key

abbrev pub texts_of : List MemberText → List (Outcome (List ℕ))
texts_of [] = []
texts_of (m ∷ ms) = m.text ∷ texts_of ms

abbrev pub sorted_text : List MemberText → Outcome (List ℕ)
sorted_text ms = do parts ← all_parts (texts_of ms); ok (b'{' ∷ join_comma parts ++ b'}' ∷ [])

-- The members in the order of their keys. What a member gives or throws depends on the member
-- alone, so the order in which the texts are made does not show.
abbrev pub members_text : List MemberText → Outcome (List ℕ)
members_text ms = sorted_text (sort_by before_member ms)

abbrev pub is_undefined : JsonValue → Bool
is_undefined undefined = true
is_undefined _ = false

abbrev pub member_text : List ℕ → Bool → Outcome (List ℕ) → Outcome (List ℕ)
member_text key missing value = do
  require (not missing) (other "undefined has no JSON form")
  name ← serialize_string key
  text ← value
  ok (name ++ b':' ∷ text)

unfoldable mutual
  pub serialize : JsonValue → Outcome (List ℕ)
  serialize null = ok (codes "null")
  serialize undefined = threw (other "not canonicalizable")
  serialize (boolean b) = ok (codes (if b then "true" else "false"))
  serialize (number n) = serialize_number n
  serialize (string s) = serialize_string s
  serialize (array items) = do
    parts ← all_parts (serialize_items items)
    ok (b'[' ∷ join_comma parts ++ b']' ∷ [])
  serialize (object members) = members_text (serialize_members members)

  pub serialize_items : Items → List (Outcome (List ℕ))
  serialize_items no_items = []
  serialize_items (item value rest) = serialize value ∷ serialize_items rest

  pub serialize_members : Members → List MemberText
  serialize_members no_members = []
  serialize_members (member key value rest) =
      record { key = key; text = member_text key (is_undefined value) (serialize value) }
      ∷ serialize_members rest

abbrev pub canonicalize : JsonValue → Outcome (List ℕ)
canonicalize value = serialize value

-- `SIGNATURE_ENVELOPE_KEYS`
abbrev pub signature_envelope_keys : List (List ℕ)
signature_envelope_keys =
    codes "proof_hash"
    ∷ codes "issuer_public_key"
    ∷ codes "issuer_signature"
    ∷ codes "network_passphrase"
    ∷ codes "contract_id"
    ∷ []

abbrev pub same_text : List ℕ → List ℕ → Bool
same_text [] [] = true
same_text (x ∷ xs) (y ∷ ys) = eqb x y && same_text xs ys
same_text _ _ = false

unfoldable pub strip_envelope : Members → List (List ℕ) → Members
strip_envelope no_members envelope_keys = no_members
strip_envelope (member key value rest) envelope_keys =
    let kept = strip_envelope rest envelope_keys in
    if any (same_text key) envelope_keys then kept else member key value kept

-- `proofHash`, with `sha256Hex` as a parameter.
abbrev pub proof_hash : (List ℕ → String) → Members → Outcome String
proof_hash sha256_hex unsigned_proof = do
  text ← canonicalize (object unsigned_proof)
  ok (sha256_hex text)

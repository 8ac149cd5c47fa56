-- ===== src/Redaction/Keys.antt =====
-- redaction.ts: the names of fields, `normalizeKey` and `isDeniedKey`.
use learnault_api.Base.{ℕ, ◌+◌, Bool, true, false, ◌&&◌, ◌||◌, List, [], ◌∷◌, ◌==◌, if◌then◌else◌}
use learnault_api.Redaction.{Text, codes, same_text, is_upper, is_lower, is_digit}
use Prim.Native.String.{String}

-- `toLowerCase`, as far as a letter `a` to `z` or a digit comes out: the capitals, and the two other
-- characters whose lower case has one, the dotted capital I and the sign for kelvin.
abbrev pub lower : ℕ → ℕ
lower c =
    if is_upper c then c + 32 else if c == 0x130 then b'i' else if c == 0x212a then b'k' else c

-- `normalizeKey`
abbrev pub normalize_key : Text → Text
normalize_key [] = []
normalize_key (c ∷ cs) =
    if is_lower (lower c) || is_digit (lower c)
    then lower c ∷ normalize_key cs
    else normalize_key cs

-- `DENIED_KEYS`
abbrev pub denied_keys : List String
denied_keys =
    "password" ∷ "passwordhash" ∷ "newpassword" ∷ "currentpassword" ∷ "confirmpassword" ∷ "pin"
    ∷ "otp" ∷ "otpcode" ∷ "codehash" ∷ "verificationcode" ∷ "resetcode" ∷ "salt" ∷ "signature"
    ∷ "sig" ∷ "nonce" ∷ "email" ∷ "emailaddress" ∷ "recipient" ∷ "phone" ∷ "phonenumber" ∷ "msisdn"
    ∷ "username" ∷ "fullname" ∷ "firstname" ∷ "lastname" ∷ "middlename" ∷ "displayname" ∷ "dob"
    ∷ "dateofbirth" ∷ "birthdate" ∷ "address" ∷ "street" ∷ "postcode" ∷ "zip" ∷ "ssn" ∷ "nin"
    ∷ "bvn" ∷ "taxid" ∷ "passportnumber" ∷ "cvv" ∷ "pan" ∷ "cardnumber" ∷ "iban" ∷ "accountnumber"
    ∷ "routingnumber" ∷ "ip" ∷ "ipaddress" ∷ "useragent" ∷ "fingerprint" ∷ "latitude" ∷ "longitude"
    ∷ "geo" ∷ "body" ∷ "html" ∷ "text" ∷ "payload" ∷ "artifact" ∷ []

-- `DENIED_KEY_PATTERNS`
abbrev pub denied_key_patterns : List String
denied_key_patterns =
    "password" ∷ "passphrase" ∷ "secret" ∷ "token" ∷ "apikey" ∷ "authorization" ∷ "credential"
    ∷ "privatekey" ∷ "publickeyseed" ∷ "seedphrase" ∷ "mnemonic" ∷ "cookie" ∷ "bearer" ∷ "jwt" ∷ []

abbrev is_in : List String → Text → Bool
is_in [] t = false
is_in (s ∷ ss) t = same_text (codes s) t || is_in ss t

abbrev pub starts_with : Text → Text → Bool
starts_with [] t = true
starts_with (_ ∷ _) [] = false
starts_with (p ∷ ps) (c ∷ cs) = p == c && starts_with ps cs

-- `text.includes(part)`
abbrev pub includes : Text → Text → Bool
includes part [] = starts_with part []
includes part (c ∷ cs) = starts_with part (c ∷ cs) || includes part cs

abbrev includes_any : List String → Text → Bool
includes_any [] t = false
includes_any (p ∷ ps) t = includes (codes p) t || includes_any ps t

-- `isDeniedKey`
unfoldable pub is_denied_key : Text → Bool
is_denied_key key =
    let normalized = normalize_key key in
    is_in denied_keys normalized || includes_any denied_key_patterns normalized

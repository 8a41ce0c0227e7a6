-- ===== src/Keys.antt =====
-- src/exactly_once/keys.py: the key of a guarded call, and the fingerprint of its payload. The
-- caller's key and fingerprint functions are pure and may raise.
pub mod Sorting
pub mod Laws
use Prim.Native.String
use exactly_once.Prelude.{
  ℕ, zero, suc, String, Bool, true, false, Option, none, some, List, [], ◌∷◌, Bytes, str_eq,
  str_append, if◌then◌else◌,
}
use exactly_once.Errors
use exactly_once.Errors.{Result, ok, err, ◌>>=◌, type_error, value_error, unstable_key}
use exactly_once.Dict.{Dict}
use exactly_once.Codec.{Codec}
use exactly_once.Values.{Value, Items, items, fields, text, arr, obj, field, end_fields, as_text}
use exactly_once.Keys.Sorting.{sort_by_name}

-- What the source uses of Python's library: `hashlib.sha256(b).hexdigest()`, `str.encode` and
-- `bytes.decode("utf-8", errors="surrogatepass")` (`none` where they raise a ValueError), and `str`
-- of a number.
pub record Builtins : Type 0 where
  pub hexdigest : Bytes → String
  pub encode_text : String → Option Bytes
  pub decode_text : Bytes → Option String
  pub decimal : ℕ → String

-- The attributes of a callable: `none` where it has no such attribute.
pub record Function : Type 0 where
  pub qualname : Option String
  pub name : Option String
  pub module_ : Option String
  pub code : Option (String × ℕ)

pub data KeySpec : Type 0 where
  static : String → KeySpec
  callable : (List Value → Dict Value → Result Value) → KeySpec

abbrev pub FingerprintSpec : Type 0
FingerprintSpec = List Value → Dict Value → Result Value

-- `s[:n]`
unfoldable pub take_text : ℕ → String → String
take_text zero s = ""
take_text (suc n) String.[] = ""
take_text (suc n) (String.◌∷◌ c s) = String.◌∷◌ c (take_text n s)

abbrev or_default : String → Option String → String
or_default s none = s
or_default s (some t) = t

-- `getattr(func, "__qualname__", None) or getattr(func, "__name__", "<anon>")`
abbrev pub qualname_of : Option Function → String
qualname_of none = "<anon>"
qualname_of (some f) = elim f.qualname [
  | none ↦ or_default "<anon>" f.name
  | some q ↦ if str_eq q "" then or_default "<anon>" f.name else q
]

abbrev pub module_of : Option Function → String
module_of none = ""
module_of (some f) = or_default "" f.module_

-- The payload of `_normalize_args`.
abbrev pub payload : List Value → Dict Value → Value
payload args kwargs = obj (
    field "args" (arr (items args))
      (field "kwargs" (obj (fields (sort_by_name kwargs))) end_fields))

-- The `except TypeError` of `_normalize_args`.
abbrev pub unstable : {A : Type 0} → Result A → Result A
unstable (ok a) = ok a
unstable (err Errors.Exception.type_error) = err unstable_key
unstable (err e) = err e

-- `if namespace:`
abbrev pub in_namespace : Option String → String → String
in_namespace none key = key
in_namespace (some n) key = if str_eq n "" then key else str_append n (str_append ":" key)

module _ (py : Builtins) where
  -- Where a lambda stands: all of them have one name.
  abbrev location_of : Option Function → String
  location_of none = ""
  location_of (some f) = elim f.code [
    | none ↦ ""
    | some (file, line) ↦
        if str_eq (or_default "" f.name) "<lambda>"
        then str_append "\0" (str_append file (str_append ":" (py.decimal line)))
        else ""
  ]

  abbrev decode_utf8 : Bytes → Result String
  decode_utf8 raw = elim (py.decode_text raw) [ none ↦ err value_error | some s ↦ ok s ]

  unfoldable pub normalize_args : List Value → Dict Value → Codec Value → Result String
  normalize_args args kwargs codec =
      unstable (do raw ← codec.encode (payload args kwargs); decode_utf8 raw)

  -- What is hashed for a derived key.
  abbrev pub identity_of : Option Function → String → String
  identity_of func normalized = str_append (module_of func) (
      str_append "." (
        str_append (qualname_of func) (str_append (location_of func) (str_append "\0" normalized))))

  -- `s.encode()`
  abbrev pub encode_utf8 : String → Result Bytes
  encode_utf8 s = elim (py.encode_text s) [ none ↦ err value_error | some b ↦ ok b ]

  abbrev pub auto_key : Option Function → String → String
  auto_key func digest =
      str_append "auto:" (str_append (qualname_of func) (str_append ":" (take_text 32 digest)))

  unfoldable pub derive_key :
      Option Function → List Value → Dict Value → Codec Value → Result String
  unfolding normalize_args take_text
  derive_key func args kwargs codec = do
    normalized ← normalize_args args kwargs codec
    hashed ← encode_utf8 (identity_of func normalized)
    ok (auto_key func (py.hexdigest hashed))

  -- `isinstance(key, str)`
  abbrev pub require_text : Value → Result String
  require_text v = elim (as_text v) [ none ↦ err type_error | some s ↦ ok s ]

  -- The key before the namespace.
  unfoldable pub own_key :
      Option KeySpec → Option Function → List Value → Dict Value → Codec Value → Result String
  unfolding derive_key
  own_key none func args kwargs codec = derive_key func args kwargs codec
  own_key (some (KeySpec.callable f)) func args kwargs codec = do v ← f args kwargs; require_text v
  own_key (some (KeySpec.static s)) func args kwargs codec = ok s

  unfoldable pub resolve_key :
      Option KeySpec
      → Option Function
      → List Value
      → Dict Value
      → Option String
      → Codec Value
      → Result String
  unfolding own_key
  resolve_key spec func args kwargs namespace codec = do
    key ← own_key spec func args kwargs codec
    ok (in_namespace namespace key)

  unfoldable pub compute_fingerprint :
      Option FingerprintSpec → List Value → Dict Value → Codec Value → Result (Option String)
  compute_fingerprint none args kwargs codec = ok none
  compute_fingerprint (some f) args kwargs codec = do
    selected ← f args kwargs
    raw ← codec.encode selected
    ok (some (py.hexdigest raw))

-- ===== src/Codec.antt =====
-- src/exactly_once/codec.py: results as bytes. Python's `json` is not modelled: `dumps` and `loads`
-- are parameters, `none` where the function raises TypeError or ValueError.
use exactly_once.Prelude.{ℕ, Option, none, some, Bool, false, Bytes, length, ltb, if◌then◌else◌}
use exactly_once.Errors.{Result, ok, err, type_error, value_error, result_too_large}

pub record Codec (V : Type 0) : Type 0 where
  pub encode : V → Result Bytes
  pub decode : Bytes → Result V

abbrev pub default_max_bytes : ℕ
default_max_bytes = 1_048_576

abbrev over_ceiling : Option ℕ → ℕ → Bool
over_ceiling none n = false
over_ceiling (some limit) n = ltb limit n

module _ {V : Type 0} (dumps : V → Option Bytes) (loads : Bytes → Option V) where
  unfoldable pub json_encode : Option ℕ → V → Result Bytes
  json_encode max_bytes value = elim (dumps value) [
    | none ↦ err type_error
    | some encoded ↦
        if over_ceiling max_bytes (length encoded) then err result_too_large else ok encoded
  ]

  unfoldable pub json_decode : Bytes → Result V
  json_decode raw = elim (loads raw) [ none ↦ err value_error | some v ↦ ok v ]

  unfoldable pub json_codec : Option ℕ → Codec V
  unfolding json_encode json_decode
  json_codec max_bytes = record { encode = json_encode max_bytes; decode = json_decode }

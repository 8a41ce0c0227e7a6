-- ===== src/Dict.antt =====
-- A table keyed by text: Python's `dict`, a Redis database, or an SQL table by its PRIMARY KEY.
use exactly_once.Prelude.{
  is_some, true, Bool, ◌⊎◌, eq_refl, String, ◌≡◌, refl, Option, none, some, List, [], ◌∷◌, arith,
  eq_iff, str_eq, if◌then◌else◌,
}

abbrev pub Dict {ℓ} : Type ℓ → Type ℓ
Dict V = List (String × V)

module _ {ℓ} {V : Type ℓ} where
  unfoldable pub lookup : String → Dict V → Option V
  lookup k [] = none
  lookup k ((j, v) ∷ d) = if str_eq j k then some v else lookup k d

  unfoldable pub insert : String → V → Dict V → Dict V
  insert k v [] = (k, v) ∷ []
  insert k v ((j, w) ∷ d) = if str_eq j k then (k, v) ∷ d else (j, w) ∷ insert k v d

  -- Drops every entry of the key, as the removal of a dict's entry or of an SQL row does.
  unfoldable pub remove : String → Dict V → Dict V
  remove k [] = []
  remove k ((j, v) ∷ d) = let rest = remove k d in if str_eq j k then rest else (j, v) ∷ rest

  pub lookup-insert :
      (k j : String) (v : V) (d : Dict V)
      → lookup j (insert k v d) ≡ (if str_eq k j then some v else lookup j d)
  unfolding lookup insert
  lookup-insert k j v [] = refl
  lookup-insert k j v ((i, w) ∷ d) =
      ground (arith, eq_iff k j, eq_iff i k, eq_iff i j, lookup-insert k j v d)

  pub lookup-remove :
      (k j : String) (d : Dict V)
      → lookup j (remove k d) ≡ (if str_eq k j then none else lookup j d)
  unfolding lookup remove
  lookup-remove k j [] = ground arith
  lookup-remove k j ((i, v) ∷ d) =
      ground (arith, eq_iff k j, eq_iff i k, eq_iff i j, lookup-remove k j d)

-- Whether a key has a value, before and after a write.
module _ {ℓ} {V : Type ℓ} where
  abbrev pub contains : Dict V → String → Bool
  contains d k = is_some (lookup k d)

  pub contains-insert :
      (k : String) (v : V) (d : Dict V) (j : String)
      → contains d j ≡ true
      → contains (insert k v d) j ≡ true
  contains-insert k v d j h = rw (lookup-insert k j v d) (ground (arith, eq_iff k j))

  pub contains-insert_self : (k : String) (v : V) (d : Dict V) → contains (insert k v d) k ≡ true
  contains-insert_self k v d = rw (lookup-insert k k v d, eq_refl) refl

  pub contains-remove :
      (k : String) (d : Dict V) (j : String)
      → contains d j ≡ true
      → (contains (remove k d) j ≡ true) ⊎ (j ≡ k)
  contains-remove k d j h = ground (arith, lookup-remove k j d, eq_iff k j)

pub ruleset dict_laws = (lookup-insert, lookup-remove)

-- ===== src/Keys/Sorting.antt =====
-- `sorted` on the names of keyword arguments.
use Prim.Native.Char.{code}
use text.Mathlib.TextEquality.{Char-path}
use exactly_once.Prelude.{
  String, ◌≡◌, ◌≢◌, refl, ap, Bool, true, false, [], ◌∷◌, ltb, if◌then◌else◌, arith, ◌∙◌,
}
use exactly_once.Dict.{Dict}

-- `s <= t` of two texts: by the code points, from the left.
unfoldable pub text_le : String → String → Bool
text_le String.[] t = true
text_le (String.◌∷◌ c s) String.[] = false
text_le (String.◌∷◌ c s) (String.◌∷◌ d t) =
    let rest = text_le s t in
    if ltb (code c) (code d) then true else if ltb (code d) (code c) then false else rest

module _ {ℓ} {V : Type ℓ} where
  insert_by_name : String → V → Dict V → Dict V
  insert_by_name k v [] = (k, v) ∷ []
  insert_by_name k v ((j, w) ∷ d) =
      let rest = insert_by_name k v d in
      if text_le k j then (k, v) ∷ ((j, w) ∷ d) else (j, w) ∷ rest

  -- `{k: kwargs[k] for k in sorted(kwargs)}`
  unfoldable pub sort_by_name : Dict V → Dict V
  unfolding insert_by_name text_le
  sort_by_name [] = []
  sort_by_name ((k, v) ∷ d) = insert_by_name k v (sort_by_name d)

le_total : (s t : String) → text_le s t ≡ false → text_le t s ≡ true
unfolding text_le
le_total String.[] t h = ground arith
le_total (String.◌∷◌ c s) String.[] h = refl
le_total (String.◌∷◌ c s) (String.◌∷◌ d t) h = ground (arith, le_total s t)

le_trans : (s t u : String) → text_le s t ≡ true → text_le t u ≡ true → text_le s u ≡ true
unfolding text_le
le_trans String.[] t u h k = refl
le_trans (String.◌∷◌ c s) String.[] u h k = ground arith
le_trans (String.◌∷◌ c s) (String.◌∷◌ d t) String.[] h k = ground arith
le_trans (String.◌∷◌ c s) (String.◌∷◌ d t) (String.◌∷◌ e u) h k = ground (arith, le_trans s t u)

le_antisymm : (s t : String) → text_le s t ≡ true → text_le t s ≡ true → s ≡ t
unfolding text_le
le_antisymm String.[] String.[] h k = refl
le_antisymm String.[] (String.◌∷◌ d t) h k = ground arith
le_antisymm (String.◌∷◌ c s) String.[] h k = ground arith
le_antisymm (String.◌∷◌ c s) (String.◌∷◌ d t) h k = ground (arith, le_antisymm s t, Char-path c d)

-- Two lists of keyword arguments with the same names and values, in another order: one comes from the
-- other by exchanges of neighbours with different names.
pub data Reordered {ℓ} {V : Type ℓ} : Dict V → Dict V → Type ℓ where
  same : (d : Dict V) → Reordered d d
  exchange :
      (j k : String) (v w : V) (d : Dict V)
      → j ≢ k
      → Reordered ((j, v) ∷ ((k, w) ∷ d)) ((k, w) ∷ ((j, v) ∷ d))
  behind : (j : String) (v : V) {d e : Dict V} → Reordered d e → Reordered ((j, v) ∷ d) ((j, v) ∷ e)
  also : {d e f : Dict V} → Reordered d e → Reordered e f → Reordered d f

module _ {ℓ} {V : Type ℓ} where
  insert_comm :
      (j k : String) (v w : V) (d : Dict V)
      → j ≢ k
      → insert_by_name j v (insert_by_name k w d) ≡ insert_by_name k w (insert_by_name j v d)
  unfolding insert_by_name
  insert_comm j k v w [] ne = ground (arith, le_total j k, le_total k j, le_antisymm j k)
  insert_comm j k v w ((i, u) ∷ d) ne = ground (
    arith,
    le_total j k,
    le_total k j,
    le_antisymm j k,
    le_total i j,
    le_total i k,
    le_trans j k i,
    le_trans k j i,
    le_total j i,
    le_total k i,
    insert_comm j k v w d,
  )

  -- Sorting forgets the order.
  pub sort-Reordered : {d e : Dict V} → Reordered d e → sort_by_name d ≡ sort_by_name e
  unfolding sort_by_name
  sort-Reordered (same d) = refl
  sort-Reordered (exchange j k v w d ne) = insert_comm j k v w (sort_by_name d) ne
  sort-Reordered (behind j v r) = ap (insert_by_name j v) (sort-Reordered r)
  sort-Reordered (also r s) = sort-Reordered r ∙ sort-Reordered s

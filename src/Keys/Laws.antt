-- ===== src/Keys/Laws.antt =====
-- Laws of the keys.
use Prim.Native.String.{count}
use text.Mathlib.TextLemmas.{
  nil-append, cons-append, length-append, length-cons, length-nil, head-eq_of_cons-eq,
  tail-eq_of_cons-eq,
}
use exactly_once.Prelude.{
  ℕ, zero, suc, ◌+◌, ◌≤◌, ◌≡◌, ◌≢◌, refl, sym, ap, ◌∙◌, String, Option, some, List, Bytes,
  str_append, append_cancel_left, arith, eq_iff,
}
use exactly_once.Errors.{Result, ok-inj, ok, err, ◌>>=◌}
use exactly_once.Dict.{Dict}
use exactly_once.Codec.{Codec}
use exactly_once.Values.{Value}
use exactly_once.Keys.Sorting.{Reordered, sort-Reordered}
use exactly_once.Keys.{
  Builtins, Function, take_text, qualname_of, payload, normalize_args, auto_key, derive_key,
  in_namespace, identity_of, encode_utf8,
}

payload-Reordered :
    (args : List Value) {d e : Dict Value} → Reordered d e → payload args d ≡ payload args e
payload-Reordered args r = rw (sort-Reordered r) refl

take_text-le : (n : ℕ) (s : String) → count (take_text n s) ≤ n
unfolding take_text
take_text-le zero s = omega (arith, length-nil)
take_text-le (suc n) String.[] = omega (arith, length-nil)
take_text-le (suc n) (String.◌∷◌ c s) =
    omega (arith, length-cons c (take_text n s), take_text-le n s)

module _ (py : Builtins) where
  -- The key that is derived for a call does not depend on the order of its keyword arguments.
  pub derive_key-Reordered :
      (func : Option Function) (args : List Value) (codec : Codec Value) {d e : Dict Value}
      → Reordered d e
      → derive_key py func args d codec ≡ derive_key py func args e codec
  unfolding derive_key normalize_args
  derive_key-Reordered func args codec r = rw (payload-Reordered args r) refl

  -- A derived key is at most 38 characters longer than the qualified name of its function, however
  -- large the arguments are.
  pub derived_key_bound :
      (func : Option Function) (args : List Value) (kwargs : Dict Value) (codec : Codec Value)
      (key : String)
      → derive_key py func args kwargs codec ≡ ok key
      → count key ≤ count (qualname_of func) + 38
  unfolding derive_key
  derived_key_bound func args kwargs codec key h = by_text (normalize_args py args kwargs codec) h
    where
      auto_bound :
          (digest : String) → count (auto_key py func digest) ≤ count (qualname_of func) + 38
      auto_bound digest = omega (
        arith,
        length-append "auto:"
            (str_append (qualname_of func) (str_append ":" (take_text 32 digest))),
        length-append (qualname_of func) (str_append ":" (take_text 32 digest)),
        length-append ":" (take_text 32 digest),
        take_text-le 32 digest,
      )

      by_bytes :
          (r : Result Bytes)
          → (r >>= λ hashed. ok (auto_key py func (py.hexdigest hashed))) ≡ ok key
          → count key ≤ count (qualname_of func) + 38
      by_bytes (ok b) e = rw (← ok-inj e) (auto_bound (py.hexdigest b))
      by_bytes (err x) e = absurd (cc)

      by_text :
          (r : Result String)
          → (r >>= λ normalized. encode_utf8 py (identity_of py func normalized) >>= λ hashed.
              ok (auto_key py func (py.hexdigest hashed)))
            ≡ ok key
          → count key ≤ count (qualname_of func) + 38
      by_text (ok s) e = by_bytes (encode_utf8 py (identity_of py func s)) e
      by_text (err x) e = absurd (cc)

-- A text with no colon in it.
abbrev pub HasNoColon : String → Type 0
HasNoColon String.[] = Unit {0}
HasNoColon (String.◌∷◌ c s) = (c ≢ ":") × HasNoColon s

colon-append : (a : String) → str_append "" (str_append ":" a) ≡ String.◌∷◌ ":" a
colon-append a =
    nil-append (str_append ":" a) ∙ cons-append ":" "" a ∙ ap (String.◌∷◌ ":") (nil-append a)

prefixes_equal :
    (n m a b : String)
    → HasNoColon n
    → HasNoColon m
    → str_append n (str_append ":" a) ≡ str_append m (str_append ":" b)
    → n ≡ m
prefixes_equal String.[] String.[] a b h k e = refl
prefixes_equal String.[] (String.◌∷◌ d m) a b h k e =
    absurd (
      k.0
        (sym (head-eq_of_cons-eq (sym (colon-append a) ∙ e ∙ cons-append d m (str_append ":" b)))))
prefixes_equal (String.◌∷◌ c n) String.[] a b h k e =
    absurd
      (h.0 (head-eq_of_cons-eq (sym (cons-append c n (str_append ":" a)) ∙ e ∙ colon-append b)))
prefixes_equal (String.◌∷◌ c n) (String.◌∷◌ d m) a b h k e =
    let e' = sym (cons-append c n (str_append ":" a)) ∙ e ∙ cons-append d m (str_append ":" b) in
    let heads = head-eq_of_cons-eq e' in
    let tails = prefixes_equal n m a b h.1 k.1 (tail-eq_of_cons-eq e') in cc

-- Two texts joined by a colon, the first with none in it, can be told from the whole.
pub joined_apart :
    (n m a b : String)
    → HasNoColon n
    → HasNoColon m
    → str_append n (str_append ":" a) ≡ str_append m (str_append ":" b)
    → (n ≡ m) × (a ≡ b)
joined_apart n m a b cn cm e =
    let same = prefixes_equal n m a b cn cm e in
    (
      same,
      append_cancel_left ":" a b (
          append_cancel_left m (str_append ":" a) (str_append ":" b)
            (sym (ap (λ x. str_append x (str_append ":" a)) same) ∙ e)),
    )

in_namespace-ne :
    (n key : String) → n ≢ "" → in_namespace (some n) key ≡ str_append n (str_append ":" key)
in_namespace-ne n key h = ground (arith, eq_iff n "")

-- Two keys in namespaces whose names are not empty and have no colon are the same only if both the
-- names and the keys are.
pub namespaces_apart :
    (n m a b : String)
    → n ≢ ""
    → m ≢ ""
    → HasNoColon n
    → HasNoColon m
    → in_namespace (some n) a ≡ in_namespace (some m) b
    → (n ≡ m) × (a ≡ b)
namespaces_apart n m a b hn hm cn cm e =
    joined_apart n m a b cn cm (sym (in_namespace-ne n a hn) ∙ e ∙ in_namespace-ne m b hm)

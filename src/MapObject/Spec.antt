-- ===== src/MapObject/Spec.antt =====
-- The abstract map: the entries in the order of insertion, read and written by equality of keys.
use mathlib.Core.Logic.{ite, if_pos, if_neg}
use mathlib.Core.Option.{some-injective}
use lovax.Base.{
  ℕ, zero, suc, ◌<◌, ◌≡◌, refl, sym, ap, ◌≢◌, Option, none, some, List, [], ◌∷◌, ◌++◌, arith,
}
use lovax.MapObject.{Key-discrete, Key, key_at, value_at, set_value, erase_at}
use lovax.MapObject.Valid.{At, absent, present}

none_ne_some {ℓ} : {A : Type ℓ} {a : A} → ¬ (none ≡ some a)
none_ne_some e = cc

module _ {ℓ} {V : Type ℓ} where
  unfoldable pub assoc_get : Key → List (Key × V) → Option V
  assoc_get k [] = none
  assoc_get k ((j, v) ∷ es) = ite (Key-discrete j k) (some v) (assoc_get k es)

  -- A new value in the place of the old one, or a new entry at the end.
  unfoldable pub assoc_set : Key → V → List (Key × V) → List (Key × V)
  assoc_set k v [] = (k, v) ∷ []
  assoc_set k v ((j, w) ∷ es) = ite (Key-discrete j k) ((j, v) ∷ es) ((j, w) ∷ assoc_set k v es)

  unfoldable pub assoc_erase : Key → List (Key × V) → List (Key × V)
  assoc_erase k [] = []
  assoc_erase k ((j, w) ∷ es) = ite (Key-discrete j k) es ((j, w) ∷ assoc_erase k es)

  -- The first entry of the key is at `p`.
  abbrev FirstAt : List (Key × V) → Key → ℕ → Type 0
  FirstAt es k p = (key_at es p ≡ some k) × ((q : ℕ) → q < p → key_at es q ≢ some k)

  head_ne :
      (j k : Key) (w : V) (es : List (Key × V)) (p : ℕ) → FirstAt ((j, w) ∷ es) k (suc p) → j ≢ k
  head_ne j k w es p (at, before) e = before 0 (omega arith) (ap some e)

  tail_first :
      (j k : Key) (w : V) (es : List (Key × V)) (p : ℕ)
      → FirstAt ((j, w) ∷ es) k (suc p)
      → FirstAt es k p
  tail_first j k w es p (at, before) = (at, λ q lt. before (suc q) (omega arith))

  -- Reading, writing and erasing at the first position of a key are the abstract operations.
  get-first :
      (es : List (Key × V)) (k : Key) (p : ℕ)
      → FirstAt es k p
      → value_at es (some p) ≡ assoc_get k es
  unfolding assoc_get
  get-first [] k p (at, before) = absurd (none_ne_some at)
  get-first ((j, w) ∷ es) k zero (at, before) = rw (if_pos _ (some-injective _ _ at))
  get-first ((j, w) ∷ es) k (suc p) f =
      rw (if_neg _ (head_ne j k w es p f)) (get-first es k p (tail_first j k w es p f))

  set-first :
      (es : List (Key × V)) (k : Key) (v : V) (p : ℕ)
      → FirstAt es k p
      → set_value es p v ≡ assoc_set k v es
  unfolding assoc_set
  set-first [] k v p (at, before) = absurd (none_ne_some at)
  set-first ((j, w) ∷ es) k v zero (at, before) = rw (if_pos _ (some-injective _ _ at))
  set-first ((j, w) ∷ es) k v (suc p) f =
      rw (if_neg _ (head_ne j k w es p f))
        (ap (λ (t : List (Key × V)). (j, w) ∷ t) (set-first es k v p (tail_first j k w es p f)))

  erase-first :
      (es : List (Key × V)) (k : Key) (p : ℕ) → FirstAt es k p → erase_at es p ≡ assoc_erase k es
  unfolding assoc_erase
  erase-first [] k p (at, before) = absurd (none_ne_some at)
  erase-first ((j, w) ∷ es) k zero (at, before) = rw (if_pos _ (some-injective _ _ at))
  erase-first ((j, w) ∷ es) k (suc p) f =
      rw (if_neg _ (head_ne j k w es p f))
        (ap (λ (t : List (Key × V)). (j, w) ∷ t) (erase-first es k p (tail_first j k w es p f)))

  abbrev pub Absent : List (Key × V) → Key → Type 0
  Absent es k = (p : ℕ) → key_at es p ≢ some k

  Absent-head :
      (j k : Key) (w : V) (es : List (Key × V)) → Absent ((j, w) ∷ es) k → (j ≢ k) × Absent es k
  Absent-head j k w es gone = (λ e. gone 0 (ap some e), λ p. gone (suc p))

  get-Absent : (es : List (Key × V)) (k : Key) → Absent es k → assoc_get k es ≡ none
  unfolding assoc_get
  get-Absent [] k gone = refl
  get-Absent ((j, w) ∷ es) k gone =
      let (ne, rest) = Absent-head j k w es gone in rw (if_neg _ ne) (get-Absent es k rest)

  pub set-Absent :
      (es : List (Key × V)) (k : Key) (v : V) → Absent es k → es ++ (k, v) ∷ [] ≡ assoc_set k v es
  unfolding assoc_set
  set-Absent [] k v gone = refl
  set-Absent ((j, w) ∷ es) k v gone =
      let (ne, rest) = Absent-head j k w es gone in
      rw (if_neg _ ne) (ap (λ (t : List (Key × V)). (j, w) ∷ t) (set-Absent es k v rest))

  pub erase-Absent : (es : List (Key × V)) (k : Key) → Absent es k → es ≡ assoc_erase k es
  unfolding assoc_erase
  erase-Absent [] k gone = refl
  erase-Absent ((j, w) ∷ es) k gone =
      let (ne, rest) = Absent-head j k w es gone in
      rw (if_neg _ ne) (ap (λ (t : List (Key × V)). (j, w) ∷ t) (erase-Absent es k rest))

  abbrev pub Unique : List (Key × V) → Type 0
  Unique es = (p q : ℕ) (k : Key) → key_at es p ≡ some k → key_at es q ≡ some k → p ≡ q

  first_at :
      (es : List (Key × V)) (k : Key) (p : ℕ) → Unique es → key_at es p ≡ some k → FirstAt es k p
  first_at es k p unique at = (at, λ q lt same. absurd (omega (arith, unique q p k same at)))

  -- What a map that finds a key at `pos` makes of its entries.
  pub get-At :
      (es : List (Key × V)) (k : Key) {pos : Option ℕ}
      → Unique es
      → At es k pos
      → value_at es pos ≡ assoc_get k es
  get-At es k unique (absent gone) = sym (get-Absent es k gone)
  get-At es k unique (present p at) = get-first es k p (first_at es k p unique at)

  pub set-At_present :
      (es : List (Key × V)) (k : Key) (v : V) (p : ℕ)
      → Unique es
      → key_at es p ≡ some k
      → set_value es p v ≡ assoc_set k v es
  set-At_present es k v p unique at = set-first es k v p (first_at es k p unique at)

  pub erase-At_present :
      (es : List (Key × V)) (k : Key) (p : ℕ)
      → Unique es
      → key_at es p ≡ some k
      → erase_at es p ≡ assoc_erase k es
  erase-At_present es k p unique at = erase-first es k p (first_at es k p unique at)

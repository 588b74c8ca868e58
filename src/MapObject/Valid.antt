-- ===== src/MapObject/Valid.antt =====
-- The invariant of a map, and what a probe tells about a key.
use native.Mathlib.Decide.{ℕ_discrete, dec_lt}
use mathlib.Core.Path.{ap₂}
use mathlib.Core.Option.{some-injective}
use lovax.Base.{
  ℕ, ◌*◌, ◌≤◌, ◌≡◌, sym, ap, ◌∙◌, ◌≢◌, ◌⊎◌, inl, inr, Bool, true, false, ◌&&◌, Option, none, some,
  List, [], arith, ◌==◌, Option-cases, length,
}
use lovax.MapObject.{
  key_hash, same_key_sound, same_key_refl, Key, bool, other, slot_at, hits, KeySlot, bool_index,
  same_at, key_at, eq_at, MapObject,
}
use lovax.MapObject.Probe.{walk, some_ne_none, IsSized, Passed, Lands, Stops, vacant, found}
use lovax.MapObject.Seat.{occupied, slot, Seated}

pub true_ne_false : ¬ (true ≡ false)
true_ne_false e = cc

and-true_right : (a b : Bool) → a && b ≡ true → b ≡ true
and-true_right a b e = ground arith

-- A slot of the key is not one that the walk passes.
not-Passed :
    (h p : ℕ) (eq : ℕ → Bool) (s : KeySlot)
    → Passed h eq s
    → s ≡ slot h p
    → hits h eq (slot h p) p ≡ false
not-Passed h p eq s q e =
    let same_h : s.h ≡ h = ap (λ (t : KeySlot). t.h) e in
    let same_p : q.at_pos ≡ p = some-injective _ _ (sym q.filled ∙ ap (λ (t : KeySlot). t.pos) e) in
    sym (ap₂ (λ (a b : ℕ). a == h && eq b) same_h same_p) ∙ q.missed

module _ {ℓ} {V : Type ℓ} where
  -- The entry at `p` has a key of hash `h`.
  abbrev pub StandsFor : List (Key × V) → ℕ → ℕ → Type 0
  StandsFor entries h p = (k : Key) × (key_at entries p ≡ some k) × (key_hash k ≡ some h)

  -- The index seats every string and integer key, and holds nothing else, with a free slot left.
  pub record IsIndexed (entries : List (Key × V)) (index : List KeySlot) (used : ℕ) : Type 0 where
    pub shape : (index ≡ []) ⊎ IsSized index
    pub count : occupied index ≡ used
    pub sparse : used * 10 ≤ length index * 7
    pub sound : (i p : ℕ) → (slot_at index i).pos ≡ some p → StandsFor entries (slot_at index i).h p
    pub seated :
        (p h : ℕ) (k : Key) → key_at entries p ≡ some k → key_hash k ≡ some h → Seated index h p

  pub record IsValid (m : MapObject V) : Type 0 where
    pub indexed : IsIndexed m.entries m.index m.index_used
    pub bools_sound :
        (b : Bool) (p : ℕ) → bool_index m b ≡ some p → key_at m.entries p ≡ some (bool b)
    pub bools_complete :
        (b : Bool) (p : ℕ) → key_at m.entries p ≡ some (bool b) → bool_index m b ≡ some p
    pub unique :
        (p q : ℕ) (k : Key) → key_at m.entries p ≡ some k → key_at m.entries q ≡ some k → p ≡ q
    pub keyed : (p : ℕ) → key_at m.entries p ≢ some other

  -- `pos` is the position of `k`, or none if no entry has that key.
  pub data At (entries : List (Key × V)) (k : Key) : Option ℕ → Type 0 where
    absent : ((p : ℕ) → key_at entries p ≢ some k) → At entries k none
    present : (p : ℕ) → key_at entries p ≡ some k → At entries k (some p)

  eq_at_sound :
      (entries : List (Key × V)) (k : Key) (p : ℕ)
      → eq_at entries k p ≡ true
      → key_at entries p ≡ some k
  eq_at_sound entries k p e = elim (Option-cases (key_at entries p)) [
    | inl n ↦ absurd (true_ne_false (sym e ∙ ap (same_at k) n))
    | inr (j, q) ↦ q ∙ ap some (sym (same_key_sound k j (sym (ap (same_at k) q) ∙ e)))
  ]

  hits-present :
      (entries : List (Key × V)) (k : Key) (h p : ℕ)
      → key_at entries p ≡ some k
      → key_hash k ≡ some h
      → hits h (eq_at entries k) (slot h p) p ≡ true
  hits-present entries k h p at hash =
      let same : eq_at entries k p ≡ true = ap (same_at k) at ∙ same_key_refl k h hash in
      ground (arith, same)

  At-stop :
      {entries : List (Key × V)} {k : Key} {h : ℕ} {s : KeySlot}
      → Stops h (eq_at entries k) s
      → (s.pos ≡ none → (p : ℕ) → key_at entries p ≢ some k)
      → At entries k s.pos
  At-stop {entries} {k} (vacant e) gone = rw e (absent (gone e))
  At-stop {entries} {k} (found p e t) gone =
      rw e (present p (eq_at_sound entries k p (and-true_right _ _ t)))

  module _ (entries : List (Key × V)) (index : List KeySlot) (used : ℕ) (k : Key) (h : ℕ)
      (v : IsIndexed entries index used) (hash : key_hash k ≡ some h) where
    -- A walk that ends on an empty slot has passed no slot of the key.
    no_seat :
        {result : Option ℕ} (l : Lands index h (eq_at entries k) result)
        → (slot_at index (walk index h l.steps)).pos ≡ none
        → (p : ℕ) → key_at entries p ≢ some k
    no_seat l gap p at =
        let s = v.seated p h k at hash in
        elim (dec_lt s.steps l.steps) [
          | yes before ↦
              let q = l.passed s.steps before in
              true_ne_false (sym (hits-present entries k h p at hash) ∙ not-Passed h p _ _ q s.here)
          | no after ↦ elim (ℕ_discrete s.steps l.steps) [
            | yes same ↦ some_ne_none p (
                sym (ap (λ (t : KeySlot). t.pos) s.here)
                ∙ ap (λ (t : ℕ). (slot_at index (walk index h t)).pos) same
                ∙ gap)
            | no ne ↦
                let (q, full) = s.over l.steps (omega arith) in some_ne_none q (sym full ∙ gap)
          ]
        ]

    pub landing-At :
        {result : Option ℕ} (l : Lands index h (eq_at entries k) result)
        → At entries k (slot_at index (walk index h l.steps)).pos
    landing-At l = At-stop l.stops (no_seat l)

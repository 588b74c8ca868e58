-- ===== src/MapObject/Append.antt =====
-- Entries of the map at the ends of `setStr` and `set`: a new entry after the others, and a new
-- value in place.
use mathlib.Core.Path.{subst₂}
use mathlib.Core.Option.{some-injective}
use lovax.Base.{
  ℕ, zero, suc, ◌+◌, ◌*◌, ◌≤◌, ◌<◌, ◌≡◌, refl, sym, ap, ◌∙◌, ◌≢◌, ◌⊎◌, inl, inr, false, none, some,
  List, [], ◌∷◌, ◌++◌, arith, if◌then◌else◌, Bool-cases, length,
}
use lovax.MapObject.{
  key_hash, Key, other, slot_at, index_grow, index_wants_grow, KeySlot, key_at, set_value,
  MapObject,
}
use lovax.MapObject.Probe.{walk, some_ne_none, IsSized}
use lovax.MapObject.Seat.{Seated, Filled}
use lovax.MapObject.Grow.{IsSized-width, grown_size, index_grow-Grown, Grown}
use lovax.MapObject.Valid.{StandsFor, IsIndexed, IsValid}
use lovax.MapObject.Spec.{Absent, Unique}
use lovax.MapObject.Find.{}

pub some_ne_none_key : {k : Key} → ¬ (none ≡ some k)
some_ne_none_key e = cc

grown_room :
    (index next : List KeySlot) (used : ℕ)
    → length next ≡ grown_size index
    → used * 10 ≤ length index * 7
    → (used + 1) * 10 ≤ length next * 7
grown_room index next used width sparse = ground arith

IsSized-if_roomy :
    (index : List KeySlot) (used : ℕ)
    → (index ≡ []) ⊎ IsSized index
    → index_wants_grow used index ≡ false
    → IsSized index
unfolding index_wants_grow
IsSized-if_roomy index used (inr sized) room = sized
IsSized-if_roomy index used (inl e) room =
    let none_there : length index ≡ 0 = ap (λ (t : List KeySlot). length t) e in
    absurd (ground arith)

module _ {ℓ} {V : Type ℓ} where
  pub key_at-lt : (es : List (Key × V)) (p : ℕ) (k : Key) → key_at es p ≡ some k → p < length es
  key_at-lt [] p k e = absurd (some_ne_none_key e)
  key_at-lt ((j, w) ∷ es) zero k e = omega arith
  key_at-lt ((j, w) ∷ es) (suc p) k e = omega (arith, key_at-lt es p k e)

  pub key_at-set_value :
      (es : List (Key × V)) (p q : ℕ) (v : V) → key_at (set_value es p v) q ≡ key_at es q
  key_at-set_value [] p q v = refl
  key_at-set_value ((j, w) ∷ es) zero zero v = refl
  key_at-set_value ((j, w) ∷ es) zero (suc q) v = refl
  key_at-set_value ((j, w) ∷ es) (suc p) zero v = refl
  key_at-set_value ((j, w) ∷ es) (suc p) (suc q) v = key_at-set_value es p q v

  module _ (k : Key) (v : V) where
    pub key_at-append_left :
        (es : List (Key × V)) (p : ℕ) (j : Key)
        → key_at es p ≡ some j
        → key_at (es ++ (k, v) ∷ []) p ≡ some j
    key_at-append_left [] p j e = absurd (some_ne_none_key e)
    key_at-append_left ((i, w) ∷ es) zero j e = e
    key_at-append_left ((i, w) ∷ es) (suc p) j e = key_at-append_left es p j e

    pub key_at-append_last : (es : List (Key × V)) → key_at (es ++ (k, v) ∷ []) (length es) ≡ some k
    key_at-append_last [] = refl
    key_at-append_last (e ∷ es) = key_at-append_last es

    pub key_at-append_cases :
        (es : List (Key × V)) (p : ℕ) (j : Key)
        → key_at (es ++ (k, v) ∷ []) p ≡ some j
        → (key_at es p ≡ some j) ⊎ ((p ≡ length es) × (k ≡ j))
    key_at-append_cases [] zero j e = inr (refl, some-injective _ _ e)
    key_at-append_cases [] (suc p) j e = absurd (some_ne_none_key e)
    key_at-append_cases ((i, w) ∷ es) zero j e = inl e
    key_at-append_cases ((i, w) ∷ es) (suc p) j e = elim (key_at-append_cases es p j e) [
      | inl old ↦ inl old
      | inr (last, same) ↦ inr (ap suc last, same)
    ]

  -- The index is about the keys alone.
  pub IsIndexed-keys :
      {es es' : List (Key × V)} {index : List KeySlot} {used : ℕ}
      → ((q : ℕ) → key_at es' q ≡ key_at es q)
      → IsIndexed es index used
      → IsIndexed es' index used
  IsIndexed-keys same v = record {
    shape = v.shape;
    count = v.count;
    sparse = v.sparse;
    sound = λ i p full. let (k, at, hash) = v.sound i p full in (k, same p ∙ at, hash);
    seated = λ p h k at hash. v.seated p h k (sym (same p) ∙ at) hash;
  }

  pub set_value-IsValid :
      (m : MapObject V) (p : ℕ) (v : V)
      → IsValid m
      → IsValid (record m { entries = set_value m.entries p v })
  set_value-IsValid m p v valid =
      let same = λ (q : ℕ). key_at-set_value m.entries p q v in
      record {
        indexed = IsIndexed-keys same valid.indexed;
        bools_sound = λ b q e. same q ∙ valid.bools_sound b q e;
        bools_complete = λ b q e. valid.bools_complete b q (sym (same q) ∙ e);
        unique = λ q r k e f. valid.unique q r k (sym (same q) ∙ e) (sym (same r) ∙ f);
        keyed = λ q e. valid.keyed q (sym (same q) ∙ e);
      }

  -- Growing keeps what the index holds.
  Grown-IsIndexed :
      {es : List (Key × V)} {index next : List KeySlot} {used : ℕ}
      → IsIndexed es index used
      → Grown index next
      → IsIndexed es next used
  Grown-IsIndexed {index} v g = record {
    shape = inr g.sized;
    count = g.count ∙ v.count;
    sparse = ground (arith, g.width, v.sparse);
    sound = λ i p full.
        let (j, same) = g.only i p full in
        let (k, at, hash) = v.sound j p (ap (λ (t : KeySlot). t.pos) same ∙ full) in
        (k, at, hash ∙ ap (λ (t : KeySlot). some t.h) same);
    seated = λ p h k at hash.
        let s = v.seated p h k at hash in g.takes (walk index h s.steps) h p s.here;
  }

  -- The index that a new entry is put into: grown first, if it wants to.
  pub record Ready (es : List (Key × V)) (used : ℕ) (next : List KeySlot) : Type 0 where
    pub indexed : IsIndexed es next used
    pub sized : IsSized next
    pub roomy : (used + 1) * 10 ≤ length next * 7

  pub make_room :
      (es : List (Key × V)) (index : List KeySlot) (used : ℕ)
      → IsIndexed es index used
      → (next : List KeySlot) × ((if index_wants_grow used index
            then index_grow index
            else some index)
          ≡ some next)
        × Ready es used next
  unfolding index_wants_grow
  make_room es index used v = elim (Bool-cases (index_wants_grow used index)) [
    | inl full ↦
        let (next, run, g) = index_grow-Grown index v.shape in
        (
          next,
          rw full run,
          record {
            indexed = Grown-IsIndexed v g;
            sized = g.sized;
            roomy = grown_room index next used g.width v.sparse;
          },
        )
    | inr room ↦ (
      index,
      rw room refl,
      record {
        indexed = v;
        sized = IsSized-if_roomy index used v.shape room;
        roomy = ground arith;
      },
    )
  ]

  module _ (es : List (Key × V)) (index next : List KeySlot) (used : ℕ) (k : Key) (h : ℕ) (v : V)
      (old : IsIndexed es index used) (hash : key_hash k ≡ some h)
      (f : Filled index h (length es) next) where
    appended_sound :
        (i p : ℕ)
        → (slot_at next i).pos ≡ some p
        → StandsFor (es ++ (k, v) ∷ []) (slot_at next i).h p
    appended_sound i p full = elim (f.only i) [
      | inl same ↦
          let (j, at, e) = old.sound i p (ap (λ (t : KeySlot). t.pos) (sym same) ∙ full) in
          (j, key_at-append_left k v es p j at, e ∙ ap (λ (t : KeySlot). some t.h) (sym same))
      | inr new ↦
          let last : length es ≡ p =
            some-injective _ _ (ap (λ (t : KeySlot). t.pos) (sym new) ∙ full) in
          (
            k,
            rw (← last) (key_at-append_last k v es),
            hash ∙ ap (λ (t : KeySlot). some t.h) (sym new),
          )
    ]

    appended-Seated :
        (p h' : ℕ) (k' : Key)
        → key_at (es ++ (k, v) ∷ []) p ≡ some k'
        → key_hash k' ≡ some h'
        → Seated next h' p
    appended-Seated p h' k' at e = elim (key_at-append_cases k v es p k' at) [
      | inl there ↦ f.keeps h' p (old.seated p h' k' there e)
      | inr (last, same) ↦
          let same_h : h ≡ h' =
            some-injective _ _ (sym hash ∙ ap (λ (t : Key). key_hash t) same ∙ e) in
          subst₂ (λ (a b : ℕ). Seated next a b) same_h (sym last) f.seats
    ]

    -- A new entry, its slot filled.
    pub appended-IsIndexed :
        IsSized index
        → (used + 1) * 10 ≤ length index * 7
        → IsIndexed (es ++ (k, v) ∷ []) next (used + 1)
    appended-IsIndexed sized roomy = record {
      shape = inr (IsSized-width f.width sized);
      count = f.count ∙ ap (λ (t : ℕ). t + 1) old.count;
      sparse = rw f.width roomy;
      sound = appended_sound;
      seated = appended-Seated;
    }

  -- A new entry whose key the index does not hold.
  pub appended_other-IsIndexed :
      {es : List (Key × V)} {index : List KeySlot} {used : ℕ} (k : Key) (v : V)
      → IsIndexed es index used
      → key_hash k ≡ none
      → IsIndexed (es ++ (k, v) ∷ []) index used
  appended_other-IsIndexed {es} k v old hash = record {
    shape = old.shape;
    count = old.count;
    sparse = old.sparse;
    sound =
        λ i p full. let (j, at, e) = old.sound i p full in (j, key_at-append_left k v es p j at, e);
    seated = λ p h j at e. elim (key_at-append_cases k v es p j at) [
      | inl there ↦ old.seated p h j there e
      | inr (last, same) ↦
          absurd (some_ne_none h (sym e ∙ ap (λ (t : Key). key_hash t) (sym same) ∙ hash))
    ];
  }

  -- The other entries of a map to which a new key is added.
  module _ (m : MapObject V) (k : Key) (v : V) (valid : IsValid m) (gone : Absent m.entries k) where
    abbrev longer : List (Key × V)
    longer = m.entries ++ (k, v) ∷ []

    pub Unique-longer : Unique longer
    Unique-longer p q j e f = elim (key_at-append_cases k v m.entries p j e) [
      | inl at_p ↦ elim (key_at-append_cases k v m.entries q j f) [
        | inl at_q ↦ valid.unique p q j at_p at_q
        | inr (last, same) ↦ absurd (gone p (rw same at_p))
      ]
      | inr (last, same) ↦ elim (key_at-append_cases k v m.entries q j f) [
        | inl at_q ↦ absurd (gone q (rw same at_q))
        | inr (last_q, _) ↦ last ∙ sym last_q
      ]
    ]

    pub keyed_longer : k ≢ other → (p : ℕ) → key_at longer p ≢ some other
    keyed_longer ne p e = elim (key_at-append_cases k v m.entries p other e) [
      | inl there ↦ valid.keyed p there
      | inr (last, same) ↦ ne same
    ]

-- ===== src/MapObject/Remove.antt =====
-- `rebuildIndex` and `remove` of the map.
use native.Mathlib.Nat.{pow-suc}
use mathlib.Core.Path.{subst}
use lovax.Base.{
  ℕ, zero, suc, ◌+◌, ◌*◌, ◌/◌, ◌^◌, ◌≤◌, ◌<◌, ◌≡◌, refl, sym, ap, ◌∙◌, ◌≢◌, inl, inr, Bool, true,
  false, Option, none, some, List, [], ◌∷◌, arith, ltb, if◌then◌else◌, Bool-cases, ◌>>=◌, length,
  replicate, length-replicate,
}
use lovax.MapObject.{
  Key, other, empty_slot, bool_index, double_until, key_at, value_at, erase_at, rebuild_index,
  remove_at, remove, new_map, MapObject,
}
use lovax.MapObject.Probe.{some_ne_none, IsSized}
use lovax.MapObject.Seat.{occupied, occupied-replicate, slot_at-replicate}
use lovax.MapObject.Valid.{IsValid, At, absent, present}
use lovax.MapObject.Spec.{assoc_get, assoc_erase, erase-Absent, Unique, get-At, erase-At_present}
use lovax.MapObject.Find.{find-At}
use lovax.MapObject.Append.{some_ne_none_key}
use lovax.MapObject.Insert.{Writes}
use lovax.MapObject.Rebuild.{over, reindex_from-Turned, Rebuilding, Turned}

-- The capacity that the loop of `rebuildIndex` settles on.
record Doubled (need : ℕ) (run : Option ℕ) : Type 0 where
  capacity : ℕ
  exponent : ℕ
  returns : run ≡ some capacity
  enough : need ≤ capacity
  power : capacity ≡ 2 ^ exponent

double_until-Doubled :
    (fuel need ncap e : ℕ)
    → 1 ≤ fuel
    → need < ncap + fuel
    → 1 ≤ ncap
    → ncap ≡ 2 ^ e
    → Doubled need (double_until fuel need ncap)
unfolding double_until
double_until-Doubled zero need ncap e some_fuel enough pos power = absurd (omega arith)
double_until-Doubled (suc fuel) need ncap e some_fuel enough pos power =
    elim (Bool-cases (ltb ncap need)) [
      | inl less ↦ rw less (
          double_until-Doubled fuel need (ncap * 2) (suc e) (ground arith) (ground arith)
            (omega arith) (sym (pow-suc 2 e ∙ rw power refl)))
      | inr fits ↦ rw fits (record {
        capacity = ncap;
        exponent = e;
        returns = refl;
        enough = ground arith;
        power = power;
      })
    ]

abbrev pub is_some {ℓ} : {A : Type ℓ} → Option A → Bool
is_some none = false
is_some (some a) = true

replicate-IsSized : (n e : ℕ) → n ≡ 2 ^ e → IsSized (replicate n empty_slot)
replicate-IsSized n e p = record { exponent = e; sized = length-replicate n empty_slot ∙ p }

-- Where an entry of the shortened list stood before.
abbrev before : ℕ → ℕ → ℕ
before p q = if ltb q p then q else suc q

no_bools {ℓ} : (V : Type ℓ) (b : Bool) → bool_index (new_map {V = V}) b ≡ none
no_bools V false = refl
no_bools V true = refl

module _ {ℓ} {V : Type ℓ} where
  -- A map with a fresh index and no entry yet.
  blank : MapObject V → ℕ → MapObject V
  blank m ncap = record m {
    index = replicate ncap empty_slot;
    index_used = 0;
    bool_false = none;
    bool_true = none;
  }

  bool_index-blank : (m : MapObject V) (ncap : ℕ) (b : Bool) → bool_index (blank m ncap) b ≡ none
  unfolding blank
  bool_index-blank m ncap false = refl
  bool_index-blank m ncap true = refl

  blank-Rebuilding :
      (m : MapObject V) (ncap e total : ℕ)
      → ncap ≡ 2 ^ e
      → total * 10 ≤ ncap * 7
      → Rebuilding (blank m ncap) [] total
  unfolding blank
  blank-Rebuilding m ncap e total power room = record {
    valid = record {
      indexed = record {
        shape = inr (replicate-IsSized ncap e power);
        count = occupied-replicate ncap;
        sparse = omega arith;
        sound = λ i p full. absurd (some_ne_none p (sym full ∙ slot_at-replicate ncap i));
        seated = λ p h k at hash. absurd (some_ne_none_key at);
      };
      bools_sound = λ b p e. absurd (some_ne_none p (sym e ∙ bool_index-blank m ncap b));
      bools_complete = λ b p e. absurd (some_ne_none_key e);
      unique = λ p q k e f. absurd (some_ne_none_key e);
      keyed = λ p e. some_ne_none_key e;
    };
    sized = replicate-IsSized ncap e power;
    few = omega arith;
    room = rw (length-replicate ncap empty_slot) room;
  }

  Turned-Writes :
      (m : MapObject V) (es : List (Key × V)) (total : ℕ) (run : Option (MapObject V))
      → Turned m es total run
      → m.entries ≡ es
      → Writes es run
  Turned-Writes m es total run t e = record {
    result = t.result;
    returns = t.returns;
    valid =
        subst (λ (x : List (Key × V)). IsValid (over t.result x)) (sym (t.same_entries ∙ e))
          t.rebuilding.valid;
    holds = t.same_entries ∙ e;
  }

  -- Rebuilding needs distinct keys only, and keeps the entries.
  rebuild_index-Writes :
      (m : MapObject V)
      → Unique m.entries
      → ((p : ℕ) → key_at m.entries p ≢ some other)
      → Writes m.entries (rebuild_index m)
  unfolding rebuild_index blank
  rebuild_index-Writes m unique keyed =
      let need = length m.entries * 10 / 7 + 1 in
      let d = double_until-Doubled need need 8 3 (omega arith) (omega arith) (omega arith) refl in
      let start =
        blank-Rebuilding m d.capacity d.exponent (length m.entries) d.power
          (omega (arith, d.enough)) in
      let t =
        reindex_from-Turned m.entries [] (blank m d.capacity) (length m.entries) start (omega arith)
          unique keyed in
      let w = Turned-Writes (blank m d.capacity) m.entries (length m.entries) _ t refl in
      record {
        result = w.result;
        returns = rw d.returns w.returns;
        valid = w.valid;
        holds = w.holds;
      }

  key_at-erase_at :
      (es : List (Key × V)) (p q : ℕ)
      → key_at (erase_at es p) q ≡ (if ltb q p then key_at es q else key_at es (suc q))
  key_at-erase_at [] p q = ground arith
  key_at-erase_at ((j, w) ∷ es) zero q = ground arith
  key_at-erase_at ((j, w) ∷ es) (suc p) zero = ground arith
  key_at-erase_at ((j, w) ∷ es) (suc p) (suc q) = ground (arith, key_at-erase_at es p q)

  stood : (es : List (Key × V)) (p q : ℕ) → key_at (erase_at es p) q ≡ key_at es (before p q)
  stood es p q = elim (Bool-cases (ltb q p)) [
    | inl e ↦ key_at-erase_at es p q ∙ rw e refl
    | inr e ↦ key_at-erase_at es p q ∙ rw e refl
  ]

  erase_at-Unique : (es : List (Key × V)) (p : ℕ) → Unique es → Unique (erase_at es p)
  erase_at-Unique es p unique q r k e f =
      let same =
        unique (before p q) (before p r) k (sym (stood es p q) ∙ e) (sym (stood es p r) ∙ f) in
      ground arith

  -- `removed` tells whether the key was there, and the map that is left is without it.
  pub record Removes (m : MapObject V) (k : Key) (run : Option (Bool × MapObject V)) : Type ℓ where
    pub removed : Bool
    pub result : MapObject V
    pub returns : run ≡ some (removed, result)
    pub tells : removed ≡ is_some (assoc_get k m.entries)
    pub valid : IsValid result
    pub holds : result.entries ≡ assoc_erase k m.entries

  value_there :
      (es : List (Key × V)) (p : ℕ) (k : Key)
      → key_at es p ≡ some k
      → true ≡ is_some (value_at es (some p))
  value_there [] p k e = absurd (some_ne_none_key e)
  value_there ((j, w) ∷ es) zero k e = refl
  value_there ((j, w) ∷ es) (suc p) k e = value_there es p k e

  remove_at-Removes :
      (m : MapObject V) (k : Key) (pos : Option ℕ)
      → IsValid m
      → At m.entries k pos
      → Removes m k (remove_at m pos)
  unfolding remove_at
  remove_at-Removes m k none valid (absent gone) = record {
    removed = false;
    result = m;
    returns = refl;
    tells = ap (λ (x : Option V). is_some x) (get-At m.entries k valid.unique (absent gone));
    valid = valid;
    holds = erase-Absent m.entries k gone;
  }
  remove_at-Removes m k (some p) valid (present _ at) =
      let w =
        rebuild_index-Writes (record m { entries = erase_at m.entries p })
          (erase_at-Unique m.entries p valid.unique)
          (λ q e. valid.keyed (before p q) (sym (stood m.entries p q) ∙ e)) in
      record {
        removed = true;
        result = w.result;
        returns = ap (λ (x : Option (MapObject V)). x >>= λ r. some (true, r)) w.returns;
        tells =
            value_there m.entries p k at
            ∙ ap (λ (x : Option V). is_some x) (get-At m.entries k valid.unique (present p at));
        valid = w.valid;
        holds = w.holds ∙ erase-At_present m.entries k p valid.unique at;
      }

  -- On a valid map `remove` ends for every key, in a valid map without that key, the other entries
  -- in their order; its answer says whether the key was there.
  pub remove-Removes : (m : MapObject V) (k : Key) → IsValid m → Removes m k (remove m k)
  unfolding remove
  remove-Removes m k valid =
      let (pos, run, at) = find-At m k valid in rw run (remove_at-Removes m k pos valid at)

  -- A new map is valid.
  pub new_map-IsValid : IsValid {V = V} new_map
  new_map-IsValid = record {
    indexed = record {
      shape = inl refl;
      count = unfold occupied in refl;
      sparse = omega arith;
      sound = λ i p e. absurd (some_ne_none p (sym e));
      seated = λ p h k at hash. absurd (some_ne_none_key at);
    };
    bools_sound = λ b p e. absurd (some_ne_none p (sym e ∙ no_bools V b));
    bools_complete = λ b p e. absurd (some_ne_none_key e);
    unique = λ p q k e f. absurd (some_ne_none_key e);
    keyed = λ p e. some_ne_none_key e;
  }

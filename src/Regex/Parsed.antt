-- ===== src/Regex/Parsed.antt =====
-- What the parsers of src/modules/regex.hpp do to the state of the compiler.
use lovax.Base.{
  ℕ, zero, suc, ◌+◌, ◌≤◌, ◌≡◌, refl, sym, ap, ◌∙◌, inl, inr, some, List, [], ◌∷◌, ◌++◌, arith, ltb,
  Bool-cases, some_injective, length, get_elem?, get_elem?-lt,
}
use lovax.Base.Members.{}
use lovax.Regex.Program.{max_groups, Inst}
use lovax.Regex.Ends.{is_split}
use lovax.Regex.Fragment.{Stands, Stands-later, split_lt, append-IsFragment, IsFragment, Keeps}
use lovax.Regex.Patches.{Below, Below-append}
use lovax.Regex.Compiler.{◌>>>◌, Compiler, Outcome, done, failed, no_fuel}
use mathlib.Core.Path.{subst}

-- Slot pairs are there for the groups.
abbrev pub Counts : ℕ → Type 0
Counts n = (1 ≤ n) × (n ≤ max_groups)

-- The code from `b` on is a fragment, and the code below it is as it was.
pub record Parsed (b : ℕ) (s r : Compiler) : Type 0 where
  pub below : Below b s.code r.code
  pub fragment : IsFragment [] b (length r.classes) r.code
  pub classes : length s.classes ≤ length r.classes
  pub groups : Counts r.group_count
  pub left : length r.rest ≤ length s.rest

-- The outcome is not for want of fuel, and a state has the property.
abbrev pub OnDone : (Compiler → Type 0) → Outcome → Type 0
OnDone P (done s) = P s
OnDone P (failed e) = Unit
OnDone P no_fuel = ⊥

pub OnDone-bind :
    (P Q : Compiler → Type 0) (o : Outcome) (f : Compiler → Outcome)
    → OnDone P o
    → ((s : Compiler) → P s → OnDone Q (f s))
    → OnDone Q (o >>> f)
OnDone-bind P Q (done s) f p h = h s p
OnDone-bind P Q (failed e) f p h = tt
OnDone-bind P Q no_fuel f p h = absurd p

pub OnDone-map :
    (P Q : Compiler → Type 0) (o : Outcome) → OnDone P o → ((s : Compiler) → P s → Q s) → OnDone Q o
OnDone-map P Q (done s) p h = h s p
OnDone-map P Q (failed e) p h = tt
OnDone-map P Q no_fuel p h = absurd p

pub Keeps-Below :
    (code later : List Inst)
    → length code ≤ length later
    → Below (length code) code later
    → Keeps code later
Keeps-Below code later le same = record {
  longer = le;
  splits = λ x y. ap is_split (same x (split_lt code x y)) ∙ y;
}

-- A fragment with what was parsed after it is a fragment.
pub extend-IsFragment :
    (open_at : List ℕ) (b : ℕ) (s r : Compiler)
    → IsFragment open_at b (length s.classes) s.code
    → Parsed (length s.code) s r
    → IsFragment open_at b (length r.classes) r.code
extend-IsFragment open_at b s r f p = record {
  inside = omega (arith, f.inside, p.fragment.inside);
  stands = λ pc i low e. elim (Bool-cases (ltb pc (length s.code))) [
    | inl y ↦ elim (f.stands pc i low (sym (p.below pc (ground (arith, y))) ∙ e)) [
      | inl o ↦ inl o
      | inr t ↦ inr (
          Stands-later b b (length s.classes) (length r.classes) s.code r.code pc i (omega arith)
            p.classes (Keeps-Below s.code r.code p.fragment.inside p.below) t)
    ]
    | inr n ↦ elim (p.fragment.stands pc i (ground (arith, n)) e) [
      | inl o ↦ absurd (cc)
      | inr t ↦ inr (
          Stands-later (length s.code) b (length r.classes) (length r.classes) r.code r.code pc i
            f.inside (omega arith) (Keeps-self r.code) t)
    ]
  ];
}
  where
    Keeps-self : (code : List Inst) → Keeps code code
    Keeps-self code = record { longer = omega arith; splits = λ x y. y }

pub Parsed-then :
    (b : ℕ) (s t r : Compiler) → Parsed b s t → Parsed (length t.code) t r → Parsed b s r
Parsed-then b s t r p q = record {
  below = λ pc lt. q.below pc (omega (arith, lt, p.fragment.inside)) ∙ p.below pc lt;
  fragment = extend-IsFragment [] b t r p.fragment q;
  classes = omega (arith, p.classes, q.classes);
  groups = q.groups;
  left = omega (arith, p.left, q.left);
}

pub Parsed-again : (b : ℕ) (s t r : Compiler) → Parsed b s t → Parsed b t r → Parsed b s r
Parsed-again b s t r p q = record {
  below = λ pc lt. q.below pc lt ∙ p.below pc lt;
  fragment = q.fragment;
  classes = omega (arith, p.classes, q.classes);
  groups = q.groups;
  left = omega (arith, p.left, q.left);
}

-- No code is a fragment at the end of the code.
pub empty-IsFragment : (classes : ℕ) (code : List Inst) → IsFragment [] (length code) classes code
empty-IsFragment classes code = record {
  inside = omega arith;
  stands = λ pc i low e. absurd (omega (arith, low, get_elem?-lt code pc i e));
}

pub nothing-Parsed :
    (b : ℕ) (s : Compiler)
    → IsFragment [] b (length s.classes) s.code
    → Counts s.group_count
    → Parsed b s s
nothing-Parsed b s f g = record {
  below = λ pc lt. refl;
  fragment = f;
  classes = omega arith;
  groups = g;
  left = omega arith;
}

-- An instruction that stands at the end of the code, and the classes it may need.
pub append-Parsed :
    (b : ℕ) (s r : Compiler) (i : Inst)
    → IsFragment [] b (length s.classes) s.code
    → r.code ≡ s.code ++ i ∷ []
    → length s.classes ≤ length r.classes
    → length r.rest ≤ length s.rest
    → Counts r.group_count
    → Stands b (length r.classes) (s.code ++ i ∷ []) (length s.code) i
    → Parsed b s r
append-Parsed b s r i f e hc hl hg h = record {
  below = λ pc lt.
      ap (λ (code : List Inst). get_elem? code pc) e
      ∙ Below-append b s.code (i ∷ []) f.inside pc lt;
  fragment =
      subst (λ (code : List Inst). IsFragment [] b (length r.classes) code) (sym e)
        (append-IsFragment [] b (length r.classes) s.code (i ∷ []) wider
          (λ j k q. inr (last j k q)));
  classes = hc;
  groups = hg;
  left = hl;
}
  where
    wider : IsFragment [] b (length r.classes) s.code
    wider = record {
      inside = f.inside;
      stands = λ pc k low q. elim (f.stands pc k low q) [
        | inl o ↦ inl o
        | inr t ↦ inr (
            Stands-later b b (length s.classes) (length r.classes) s.code s.code pc k (omega arith)
              hc (record { longer = omega arith; splits = λ x y. y }) t)
      ];
    }

    last :
        (j : ℕ) (k : Inst)
        → get_elem? (i ∷ []) j ≡ some k
        → Stands b (length r.classes) (s.code ++ i ∷ []) (length s.code + j) k
    last zero k q =
        subst (λ (z : Inst). Stands b (length r.classes) (s.code ++ i ∷ []) (length s.code + 0) z)
          (some_injective q)
          (subst (λ (z : ℕ). Stands b (length r.classes) (s.code ++ i ∷ []) z i) (omega arith) h)
    last (suc j) k q = absurd (cc)

-- ===== src/Regex/Patches.antt =====
-- Fragments of the compiler of src/modules/regex.hpp after a patch, and after a copy of a body.
use lovax.Base.{
  ℕ, ◌+◌, ◌-◌, ◌≤◌, ◌<◌, ◌≡◌, sym, ap, ◌∙◌, ◌≢◌, inl, inr, Bool, true, ◌||◌, some, List, [], ◌∷◌,
  ◌++◌, arith, ◌==◌, ==_iff, Bool-cases, some_injective, length, get_elem?, set, drop,
  length-append, length-set, get_elem?-set_self, get_elem?-set_ne,
}
use lovax.Base.Members.{contains}
use lovax.Regex.Program.{Inst, char, any, class, split, jmp, save, bol, eol, match}
use lovax.Regex.Ends.{is_split}
use lovax.Regex.Repeat.{shift, relocate, append_body}
use lovax.Regex.Fragment.{
  Stands, Stands-later, get_elem?-append_left, get_elem?-append_right, get_elem?-drop, length-drop,
  length-relocate, get_elem?-relocate, is_split-relocate, Keeps-append, append-IsFragment,
  IsFragment, Keeps,
}
use mathlib.Core.Path.{subst}
use native.Mathlib.Decide.{ℕ_discrete}

-- The code below a position is the same.
abbrev pub Below : ℕ → List Inst → List Inst → Type 0
Below n code later = (pc : ℕ) → pc < n → get_elem? later pc ≡ get_elem? code pc

pub Below-append : (n : ℕ) (code more : List Inst) → n ≤ length code → Below n code (code ++ more)
Below-append n code more h pc lt = get_elem?-append_left code more pc (omega arith)

pub Below-set : (n p : ℕ) (code : List Inst) (i : Inst) → n ≤ p → Below n code (set code p i)
Below-set n p code i h pc lt = get_elem?-set_ne code p pc i (λ e. omega (arith, e))

pub Keeps-set :
    (code : List Inst) (p : ℕ) (i : Inst)
    → p < length code
    → is_split (some i) ≡ is_split (get_elem? code p)
    → Keeps code (set code p i)
Keeps-set code p i h e = record {
  longer = omega (arith, length-set code p i);
  splits = λ x y. elim (ℕ_discrete p x) [
    | yes q ↦
        subst (λ (z : ℕ). is_split (get_elem? (set code p i) z) ≡ true) q
          (ap is_split (get_elem?-set_self code p i h)
            ∙ e
            ∙ ap (λ (z : ℕ). is_split (get_elem? code z)) q
            ∙ y)
    | no n ↦ ap is_split (get_elem?-set_ne code p x i n) ∙ y
  ];
}

-- An instruction that waited for its targets gets them.
pub patch-IsFragment :
    (open_at : List ℕ) (p start classes : ℕ) (code : List Inst) (i : Inst)
    → IsFragment (p ∷ open_at) start classes code
    → p < length code
    → is_split (some i) ≡ is_split (get_elem? code p)
    → Stands start classes (set code p i) p i
    → IsFragment open_at start classes (set code p i)
patch-IsFragment open_at p start classes code i f h e s = record {
  inside = omega (arith, f.inside, length-set code p i);
  stands = λ pc j low q. elim (ℕ_discrete p pc) [
    | yes same ↦ inr (
        patched pc j same (
          some_injective
            (sym (get_elem?-set_self code p i h) ∙ ap (get_elem? (set code p i)) same ∙ q)))
    | no n ↦ elim (f.stands pc j low (sym (get_elem?-set_ne code p pc i n) ∙ q)) [
      | inl o ↦ inl (still_open pc n o)
      | inr t ↦ inr (
          Stands-later start start classes classes code (set code p i) pc j (omega arith)
            (omega arith) (Keeps-set code p i h e) t)
    ]
  ];
}
  where
    patched : (pc : ℕ) (j : Inst) → p ≡ pc → i ≡ j → Stands start classes (set code p i) pc j
    patched pc j same q =
        subst (λ (k : Inst). Stands start classes (set code p i) pc k) q
          (subst (λ (z : ℕ). Stands start classes (set code p i) z i) same s)

    still_open : (pc : ℕ) → p ≢ pc → contains pc (p ∷ open_at) ≡ true → contains pc open_at ≡ true
    still_open pc n o = elim (Bool-cases (pc == p)) [
      | inl y ↦ absurd (n (sym ((==_iff pc p).0 y)))
      | inr m ↦ sym (ap (λ (b : Bool). b || contains pc open_at) m) ∙ o
    ]

-- A fragment of the same origin: the code below its beginning is the origin's.
pub record Grows (open_at : List ℕ) (start classes : ℕ) (origin code : List Inst) : Type 0 where
  pub fragment : IsFragment open_at start classes code
  pub below : Below start origin code

module _ (start classes : ℕ) (origin : List Inst) (whole : IsFragment [] start classes origin) where
  abbrev pub body : List Inst
  body = drop start origin

  module _ (code : List Inst) (h : start ≤ length code) where
    abbrev pub delta : ℕ
    delta = length code - start

    abbrev later : List Inst
    later = append_body start body code

    later-length : length later ≡ length code + (length origin - start)
    unfolding append_body
    later-length =
        length-append code (relocate delta body)
        ∙ ap (λ (n : ℕ). length code + n) (length-relocate delta body ∙ length-drop start origin)

    -- A SPLIT of the origin is a SPLIT of the copy.
    copied_split :
        (x : ℕ)
        → start ≤ x
        → is_split (get_elem? origin x) ≡ true
        → is_split (get_elem? later (x + delta)) ≡ true
    unfolding append_body
    copied_split x low y =
        let j = x - start in
        let at : x + delta ≡ length code + j = omega (arith, low, h) in
        let back : start + j ≡ x = omega (arith, low) in
        ap (λ (z : ℕ). is_split (get_elem? later z)) at
        ∙ ap is_split (get_elem?-append_right code (relocate delta body) j)
        ∙ is_split-relocate delta body j
        ∙ ap is_split (get_elem?-drop start origin j)
        ∙ ap (λ (z : ℕ). is_split (get_elem? origin z)) back
        ∙ y

    shift-Stands :
        (j : ℕ) (o : Inst)
        → Stands start classes origin (start + j) o
        → Stands start classes later (length code + j) (shift delta o)
    shift-Stands j (class c) s = s
    shift-Stands j (split x y) (lx, hx, ly, hy) = (
      omega (arith, lx),
      omega (arith, hx, h, whole.inside, later-length),
      omega (arith, ly),
      omega (arith, hy, h, whole.inside, later-length),
    )
    shift-Stands j (jmp x) (low, high, inl on) = (
      omega (arith, low),
      omega (arith, high, h, whole.inside, later-length),
      inl (omega (arith, on, h)),
    )
    shift-Stands j (jmp x) (low, high, inr back) = (
      omega (arith, low),
      omega (arith, high, h, whole.inside, later-length),
      inr (copied_split x low back),
    )
    shift-Stands j (save x) s = s
    shift-Stands j match s = s
    shift-Stands j (char c) s = tt
    shift-Stands j any s = tt
    shift-Stands j bol s = tt
    shift-Stands j eol s = tt

  -- A copy of the body may be appended to a fragment with the same beginning.
  pub append_body-Grows :
      (open_at : List ℕ) (code : List Inst)
      → Grows open_at start classes origin code
      → Grows open_at start classes origin (append_body start body code)
        × Keeps code (append_body start body code)
  unfolding append_body
  append_body-Grows open_at code g =
      let h = g.fragment.inside in
      (
        record {
          fragment =
              append-IsFragment open_at start classes code (relocate (delta code h) body) g.fragment
                (λ j i e. inr (copied j i (get_elem?-relocate (delta code h) body j i e)));
          below = λ pc lt.
              Below-append start code (relocate (delta code h) body) h pc lt ∙ g.below pc lt;
        },
        Keeps-append code (relocate (delta code h) body),
      )
    where
      copied :
          (j : ℕ) (i : Inst)
          → (o : Inst) × (get_elem? body j ≡ some o) × (i ≡ shift (length code - start) o)
          → Stands start classes (append_body start body code) (length code + j) i
      copied j i (o, e, q) =
          subst
            (λ (k : Inst). Stands start classes (append_body start body code) (length code + j) k)
            (sym q)
            (shift-Stands code g.fragment.inside j o
              (elim (whole.stands (start + j) o (omega arith)
                (sym (get_elem?-drop start origin j) ∙ e)) [ inl o ↦ absurd (cc) | inr s ↦ s ]))

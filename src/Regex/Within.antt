-- ===== src/Regex/Within.antt =====
-- Where the ways of src/modules/regex.hpp lie in a text.
use lovax.Base.{
  ℕ, ◌+◌, ◌≤◌, ◌<◌, ◌≡◌, refl, sym, ap, ◌∙◌, ◌≢◌, ◌⊎◌, inl, inr, true, false, none, some, List,
  arith, ltb, ◌==◌, Bool-cases, some_injective, length, get_elem?, get_elem?-lt,
}
use lovax.Regex.Program.{
  utf8_char_len, Prog, Inst, char, any, class, split, jmp, save, bol, eol, match,
}
use lovax.Regex.Matcher.{set_cap, ends_inside}
use lovax.Regex.Paths.{
  Caps, Way-Onward, Way, at_char, at_any, at_class, at_first, at_second, at_jmp, at_save, at_bol,
  at_eol, at_match,
}
use lovax.Regex.Whole.{Inner, IsWhole}
use mathlib.Core.Path.{subst}

module _ (prog : Prog) (text : List ℕ) where
  -- The slots that are set are positions of the text, its end included.
  abbrev pub Bounded : Caps → Type 0
  Bounded k = (x v : ℕ) → k x ≡ some v → v ≤ length text

  set_cap-Bounded :
      (k : Caps) (x sp : ℕ) → sp ≤ length text → Bounded k → Bounded (set_cap k x (some sp))
  set_cap-Bounded k x sp h b y v e = elim (Bool-cases (y == x)) [
    | inl same ↦ omega (arith, h, some_injective (sym (set_same same) ∙ e))
    | inr other ↦ b y v (sym (set_other other) ∙ e)
  ]
    where
      set_same : y == x ≡ true → set_cap k x (some sp) y ≡ some sp
      set_same same = rw same refl

      set_other : y == x ≡ false → set_cap k x (some sp) y ≡ k y
      set_other other = rw other refl

  -- The captures at the end of a way: the beginning as it was, an end after `sp`.
  abbrev pub Within : ℕ → Caps → Caps → Type 0
  Within sp k f = (f 0 ≡ k 0) × Bounded f × (b : ℕ) × (f 1 ≡ some b) × (sp ≤ b) × (b ≤ length text)

  Within-later : (sp sp' : ℕ) (k f : Caps) → sp ≤ sp' → Within sp' k f → Within sp k f
  Within-later sp sp' k f h (e, bounded, b, q, low, high) =
      (e, bounded, b, q, omega (arith, h, low), high)

  char_inside : (sp c : ℕ) → ends_inside prog text sp c ≡ true → sp + utf8_char_len c ≤ length text
  char_inside sp c y = ground (arith, y)

  module _ (n : ℕ) (w : IsWhole prog n) where
    -- Only the SAVE at `n` is not an inner instruction.
    place :
        (pc : ℕ) (i : Inst)
        → 1 ≤ pc
        → pc ≤ n
        → get_elem? prog.code pc ≡ some i
        → ((pc < n) × Inner n i) ⊎ ((pc ≡ n) × (i ≡ save 1))
    place pc i low high e = elim (Bool-cases (ltb pc n)) [
      | inl y ↦ let lt : pc < n = ground (arith, y) in inl (lt, w.inner pc i low lt e)
      | inr m ↦
          let same : pc ≡ n = ground (arith, m, high) in
          inr (same, some_injective (sym e ∙ ap (get_elem? prog.code) same ∙ w.slot))
    ]

    next :
        (pc : ℕ) (i : Inst)
        → i ≢ save 1
        → ((pc < n) × Inner n i) ⊎ ((pc ≡ n) × (i ≡ save 1))
        → (pc + 1 ≤ n) × Inner n i
    next pc i other (inl (lt, h)) = (omega (arith, lt), h)
    next pc i other (inr (same, e)) = absurd (other e)

    -- The way behind the last SAVE is over.
    last-Way :
        (sp : ℕ) (k f : Caps)
        → sp ≤ length text
        → Bounded k
        → Way prog text (n + 1) sp (set_cap k 1 (some sp)) f
        → Within sp k f
    last-Way sp k f h bounded way =
        let e : f ≡ set_cap k 1 (some sp) =
          Way-Onward prog text (n + 1) sp (set_cap k 1 (some sp)) f match w.last way in
        subst (λ (g : Caps). Within sp k g) (sym e)
          (refl, set_cap-Bounded k 1 sp h bounded, sp, refl, omega arith, h)

    saved :
        (pc sp x : ℕ) (k f : Caps)
        → sp ≤ length text
        → Bounded k
        → Way prog text (pc + 1) sp (set_cap k x (some sp)) f
        → ((pc < n) × Inner n (save x)) ⊎ ((pc ≡ n) × (save x ≡ save 1))
        → (pc + 1 ≤ n → Within sp (set_cap k x (some sp)) f)
        → Within sp k f
    saved pc sp x k f h bounded way (inl (lt, big)) onward =
        let (e, bounded', b, q, low, high) = onward (omega (arith, lt)) in
        (e ∙ kept (ground (arith, big)), bounded', b, q, low, high)
      where
        kept : 0 == x ≡ false → set_cap k x (some sp) 0 ≡ k 0
        kept other = rw other refl
    saved pc sp x k f h bounded way (inr (same, e)) onward = last-Way sp k f h bounded (
        subst (λ (p : ℕ). Way prog text (p + 1) sp (set_cap k 1 (some sp)) f) same
          (subst (λ (y : ℕ). Way prog text (pc + 1) sp (set_cap k y (some sp)) f) (slot_one e) way))
      where
        slot_one : save x ≡ save 1 → x ≡ 1
        slot_one e = cc

    pub Way-Within :
        (pc sp : ℕ) (k f : Caps)
        → 1 ≤ pc
        → pc ≤ n
        → sp ≤ length text
        → Bounded k
        → Way prog text pc sp k f
        → Within sp k f
    Way-Within pc sp k f low high h bounded (at_char {c} e t way) =
        let (on, u) = next pc (char c) (cc) (place pc (char c) low high e) in
        Within-later sp (sp + 1) k f (omega arith) (
          Way-Within (pc + 1) (sp + 1) k f (omega arith) on
            (omega (arith, get_elem?-lt text sp c t)) bounded way)
    Way-Within pc sp k f low high h bounded (at_any {c} e t inside way) =
        let (on, u) = next pc any (cc) (place pc any low high e) in
        Within-later sp (sp + utf8_char_len c) k f (omega arith) (
          Way-Within (pc + 1) (sp + utf8_char_len c) k f (omega arith) on (char_inside sp c inside)
            bounded way)
    Way-Within pc sp k f low high h bounded (at_class {i} {c} e g t m way) =
        let (on, u) = next pc (class i) (cc) (place pc (class i) low high e) in
        Within-later sp (sp + 1) k f (omega arith) (
          Way-Within (pc + 1) (sp + 1) k f (omega arith) on
            (omega (arith, get_elem?-lt text sp c t)) bounded way)
    Way-Within pc sp k f low high h bounded (at_first {x} {y} e way) =
        let (on, (lx, hx, ly, hy)) = next pc (split x y) (cc) (place pc (split x y) low high e) in
        Way-Within x sp k f lx hx h bounded way
    Way-Within pc sp k f low high h bounded (at_second {x} {y} e way) =
        let (on, (lx, hx, ly, hy)) = next pc (split x y) (cc) (place pc (split x y) low high e) in
        Way-Within y sp k f ly hy h bounded way
    Way-Within pc sp k f low high h bounded (at_jmp {x} e way) =
        let (on, (lx, hx)) = next pc (jmp x) (cc) (place pc (jmp x) low high e) in
        Way-Within x sp k f lx hx h bounded way
    Way-Within pc sp k f low high h bounded (at_save {x} e way) =
        saved pc sp x k f h bounded way (place pc (save x) low high e) (λ on.
          Way-Within (pc + 1) sp (set_cap k x (some sp)) f (omega arith) on h
            (set_cap-Bounded k x sp h bounded) way)
    Way-Within pc sp k f low high h bounded (at_bol e z way) =
        let (on, u) = next pc bol (cc) (place pc bol low high e) in
        Way-Within (pc + 1) sp k f (omega arith) on h bounded way
    Way-Within pc sp k f low high h bounded (at_eol e z way) =
        let (on, u) = next pc eol (cc) (place pc eol low high e) in
        Way-Within (pc + 1) sp k f (omega arith) on h bounded way
    Way-Within pc sp k f low high h bounded (at_match e) =
        let (on, u) = next pc match (cc) (place pc match low high e) in absurd u

    -- A match is an interval of the text that begins where it was tried.
    pub match-Within :
        (from : ℕ) (f : Caps)
        → from ≤ length text
        → Way prog text 0 from (λ y. none) f
        → (f 0 ≡ some from) × Bounded f × (b : ℕ) × (f 1 ≡ some b) × (from ≤ b) × (b ≤ length text)
    match-Within from f h way =
        Way-Within 1 from (set_cap (λ y. none) 0 (some from)) f (omega arith) w.starts h
          (set_cap-Bounded (λ y. none) 0 from h (λ x v e. absurd (cc)))
          (Way-Onward prog text 0 from (λ y. none) f (save 0) w.first way)

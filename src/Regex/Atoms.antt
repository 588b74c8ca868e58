-- ===== src/Regex/Atoms.antt =====
-- Atoms and their quantifiers in the compiler of src/modules/regex.hpp.
use lovax.Base.{
  ℕ, ◌+◌, ◌*◌, ◌≤◌, ◌<◌, refl, inl, inr, Bool, true, false, Option, none, some, List, [], ◌∷◌, ◌++◌,
  arith, ◌==◌, if◌then◌else◌, Bool-cases, length, length-append,
}
use lovax.Regex.Program.{max_groups, CharClass, Inst, char, class, save}
use lovax.Regex.Classes.{
  begins, tail, read_bounds, out_of_range, digits, word_chars, spaces, escaped_char,
}
use lovax.Regex.Repeat.{}
use lovax.Regex.Fragment.{Stands, IsFragment}
use lovax.Regex.Patches.{Grows}
use lovax.Regex.Repeated.{OnSome, apply_repeat-Made}
use lovax.Regex.Shorter.{length-tail, read_bounds_shorter}
use lovax.Regex.Compiler.{
  emit, emit_class, with_code, escape, quantified, braces, quantify, close_group, Compiler, Outcome,
  done,
}
use lovax.Regex.Parsed.{
  Counts, OnDone, Parsed-again, empty-IsFragment, nothing-Parsed, append-Parsed, Parsed,
}

-- `parseAlt` as the groups call it.
abbrev pub ParsesAlternatives : ℕ → (Compiler → Outcome) → Type 0
ParsesAlternatives n parse_alt =
    (s : Compiler)
    → Counts s.group_count
    → length s.rest < n
    → OnDone (Parsed (length s.code) s) (parse_alt s)

module _ (start : ℕ) (s : Compiler) (f : IsFragment [] start (length s.classes) s.code)
    (g : Counts s.group_count) where
  with_code-Parsed :
      (rest : List ℕ) (o : Option (List Inst))
      → length rest ≤ length s.rest
      → OnSome (Grows [] start (length s.classes) s.code) o
      → OnDone (Parsed start s) (with_code (record s { rest = rest }) o)
  with_code-Parsed rest none h m = tt
  with_code-Parsed rest (some code) h m = record {
    below = m.below;
    fragment = m.fragment;
    classes = omega arith;
    groups = g;
    left = h;
  }

  quantified-Parsed :
      (lo : ℕ) (hi : Option ℕ) (rest : List ℕ)
      → length rest ≤ length s.rest
      → OnDone (Parsed start s) (quantified start lo hi rest s)
  unfolding quantified
  quantified-Parsed lo hi rest h =
      with_code-Parsed _ _ (after (begins b'?' rest))
        (apply_repeat-Made start (length s.classes) s.code f lo hi (begins b'?' rest))
    where
      after : (lazy : Bool) → length (if lazy then tail rest else rest) ≤ length s.rest
      after true = omega (arith, h, length-tail rest)
      after false = h

  braces-Parsed :
      (o : Option (ℕ × Option ℕ × List ℕ))
      → OnSome (λ ((lo, hi, rest) : ℕ × Option ℕ × List ℕ). length rest ≤ length (tail s.rest)) o
      → OnDone (Parsed start s) (braces start s o)
  unfolding braces
  braces-Parsed none h = nothing-Parsed start s f g
  braces-Parsed (some (lo, hi, rest)) h = elim (Bool-cases (out_of_range lo hi)) [
    | inl y ↦ rw y tt
    | inr n ↦ rw n (quantified-Parsed lo hi rest (omega (arith, h, length-tail s.rest)))
  ]

  pub quantify-Parsed : OnDone (Parsed start s) (quantify start s)
  unfolding quantify
  quantify-Parsed =
      first (begins b'*' s.rest) (begins b'+' s.rest) (begins b'?' s.rest) (begins b'{' s.rest)
    where
      first :
          (many one optional brace : Bool)
          → OnDone (Parsed start s) (
              if many
              then quantified start 0 none (tail s.rest) s
              else if one
              then quantified start 1 none (tail s.rest) s
              else if optional
              then quantified start 0 (some 1) (tail s.rest) s
              else if brace
              then braces start s (read_bounds (tail s.rest))
              else done s)
      first true one optional brace = quantified-Parsed 0 none (tail s.rest) (length-tail s.rest)
      first false true optional brace = quantified-Parsed 1 none (tail s.rest) (length-tail s.rest)
      first false false true brace = quantified-Parsed 0 (some 1) (tail s.rest) (length-tail s.rest)
      first false false false true =
          braces-Parsed (read_bounds (tail s.rest)) (read_bounds_shorter (tail s.rest))
      first false false false false = nothing-Parsed start s f g

-- An atom that is one instruction, after `n` characters or fewer.
module _ (s : Compiler) (g : Counts s.group_count) where
  pub emitted-Parsed :
      (i : Inst)
      → Stands (length s.code) (length s.classes) (s.code ++ i ∷ []) (length s.code) i
      → Parsed (length s.code) s (emit s i)
  emitted-Parsed i h =
      append-Parsed (length s.code) s (emit s i) i (empty-IsFragment (length s.classes) s.code) refl
        (omega arith) (omega arith) g h

  pub class-Parsed : (c : CharClass) → Parsed (length s.code) s (emit_class s c)
  class-Parsed c =
      let len = length-append s.classes (c ∷ []) in
      append-Parsed (length s.code) s (emit_class s c) (class (length s.classes))
        (empty-IsFragment (length s.classes) s.code) refl (omega (arith, len)) (omega arith) g
        (omega (arith, len))

  pub escape-Parsed : (e : ℕ) → Parsed (length s.code) s (escape s e)
  escape-Parsed e = which (e == b'd') (e == b'D') (e == b'w') (e == b'W') (e == b's') (e == b'S')
    where
      which :
          (d nd w nw b nb : Bool)
          → Parsed (length s.code) s (
              if d
              then emit_class s (record { negate = false; ranges = digits })
              else if nd
              then emit_class s (record { negate = true; ranges = digits })
              else if w
              then emit_class s (record { negate = false; ranges = word_chars })
              else if nw
              then emit_class s (record { negate = true; ranges = word_chars })
              else if b
              then emit_class s (record { negate = false; ranges = spaces })
              else if nb
              then emit_class s (record { negate = true; ranges = spaces })
              else emit s (char (escaped_char e)))
      which true nd w nw b nb = class-Parsed _
      which false true w nw b nb = class-Parsed _
      which false false true nw b nb = class-Parsed _
      which false false false true b nb = class-Parsed _
      which false false false false true nb = class-Parsed _
      which false false false false false true = class-Parsed _
      which false false false false false false = emitted-Parsed (char (escaped_char e)) tt

-- What was parsed from less of the pattern.
pub shorter-Parsed :
    (b : ℕ) (s r : Compiler) (rest : List ℕ)
    → length rest ≤ length s.rest
    → Parsed b (record s { rest = rest }) r
    → Parsed b s r
shorter-Parsed b s r rest h p = record {
  below = p.below;
  fragment = p.fragment;
  classes = p.classes;
  groups = p.groups;
  left = omega (arith, h, p.left);
}

-- A state that was parsed from what comes before the group's parenthesis.
pub close_group-Parsed :
    (b : ℕ) (s t : Compiler) (slot : Option ℕ)
    → OnSome (λ k. (1 ≤ k) × (k < max_groups)) slot
    → Parsed b s t
    → OnDone (Parsed b s) (close_group slot t)
close_group-Parsed b s t slot h p = elim (Bool-cases (begins b')' t.rest)) [
  | inr n ↦ rw n tt
  | inl y ↦ rw y (Parsed-again b s t _ p (closed slot h))
]
  where
    closed :
        (slot : Option ℕ)
        → OnSome (λ k. (1 ≤ k) × (k < max_groups)) slot
        → Parsed b t (elim slot [
          | none ↦ record t { rest = tail t.rest }
          | some k ↦ emit (record t { rest = tail t.rest }) (save (k * 2 + 1))
        ])
    closed none h =
        shorter-Parsed b t _ (tail t.rest) (length-tail t.rest)
          (nothing-Parsed b (record t { rest = tail t.rest }) p.fragment p.groups)
    closed (some k) h =
        append-Parsed b t (emit (record t { rest = tail t.rest }) (save (k * 2 + 1)))
          (save (k * 2 + 1)) p.fragment refl (omega arith) (length-tail t.rest) p.groups
          (omega (arith, h), omega (arith, h))

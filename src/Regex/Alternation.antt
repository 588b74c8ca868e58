-- ===== src/Regex/Alternation.antt =====
-- Alternations in the compiler of src/modules/regex.hpp.
use lovax.Base.{
  ℕ, zero, suc, ◌+◌, ◌-◌, ◌<◌, ◌≡◌, refl, sym, ap, ◌∙◌, inl, inr, true, some, List, [], ◌∷◌, ◌++◌,
  arith, ltb, Bool-cases, length, get_elem?, set, take, length-append, length-set, get_elem?-set_ne,
}
use lovax.Base.Members.{contains}
use lovax.Regex.Program.{max_prog, Inst, split, jmp}
use lovax.Regex.Ends.{is_split}
use lovax.Regex.Repeat.{checked}
use lovax.Regex.Fragment.{
  get_elem?-append_right, length-take, split_lt, Keeps-append, append-IsFragment, widen-IsFragment,
  IsFragment,
}
use lovax.Regex.Patches.{Below, Below-append, Below-set, patch-IsFragment, Grows}
use lovax.Regex.Opened.{opened, opened-Grows}
use lovax.Regex.Repeated.{before-Made}
use lovax.Regex.Compiler.{emit, with_code, open_branch, close_branch, Compiler}
use lovax.Regex.Parsed.{OnDone, OnDone-bind, extend-IsFragment, Parsed}
use mathlib.Core.Path.{subst}

-- An alternation between its left branch and its right one: the SPLIT at `b` and the JMP at the
-- end wait for their targets.
pub record Opened (b : ℕ) (s o : Compiler) : Type 0 where
  pub below : Below b s.code o.code
  pub fragment : IsFragment (b ∷ (length o.code - 1) ∷ []) b (length o.classes) o.code
  pub at_split : is_split (get_elem? o.code b) ≡ true
  pub at_jmp : get_elem? o.code (length o.code - 1) ≡ some (jmp 0)
  pub inside : b + 1 < length o.code
  pub classes : s.classes ≡ o.classes
  pub groups : s.group_count ≡ o.group_count
  pub rest : s.rest ≡ o.rest

module _ (b : ℕ) (s : Compiler) (f : IsFragment [] b (length s.classes) s.code) where
  jumped-Opened :
      (code : List Inst)
      → Grows (b ∷ []) b (length s.classes) s.code code
      → is_split (get_elem? code b) ≡ true
      → Opened b s (record s { code = code ++ jmp 0 ∷ [] })
  jumped-Opened code g y =
      let len = length-append code (jmp 0 ∷ []) in
      let last : length (code ++ jmp 0 ∷ []) - 1 ≡ length code + 0 = omega (arith, len) in
      record {
        below = λ pc lt. Below-append b code (jmp 0 ∷ []) g.fragment.inside pc lt ∙ g.below pc lt;
        fragment =
            append-IsFragment _ b (length s.classes) code (jmp 0 ∷ [])
              (widen-IsFragment (b ∷ []) _ b (length s.classes) code (λ p h. widened p h)
                g.fragment)
              (λ j i e. inl (waits last j i e));
        at_split = (Keeps-append code (jmp 0 ∷ [])).splits b y;
        at_jmp =
            ap (get_elem? (code ++ jmp 0 ∷ [])) last ∙ get_elem?-append_right code (jmp 0 ∷ []) 0;
        inside = omega (arith, len, split_lt code b y);
        classes = refl;
        groups = refl;
        rest = refl;
      }
    where
      widened :
          (p : ℕ)
          → contains p (b ∷ []) ≡ true
          → contains p (b ∷ (length (code ++ jmp 0 ∷ []) - 1) ∷ []) ≡ true
      widened p h = ground arith

      waits :
          length (code ++ jmp 0 ∷ []) - 1 ≡ length code + 0
          → (j : ℕ) (i : Inst) → get_elem? (jmp 0 ∷ []) j ≡ some i
          → contains (length code + j) (b ∷ (length (code ++ jmp 0 ∷ []) - 1) ∷ []) ≡ true
      waits last zero i e = ground arith
      waits last (suc j) i e = absurd (cc)

  -- The state before the JMP.
  abbrev Halfway : Compiler → Type 0
  Halfway t =
      (code : List Inst) × (t ≡ record s { code = code })
      × Grows (b ∷ []) b (length s.classes) s.code code
      × (is_split (get_elem? code b) ≡ true)

  checked-Halfway :
      (code : List Inst)
      → Grows (b ∷ []) b (length s.classes) s.code code
      → is_split (get_elem? code b) ≡ true
      → OnDone Halfway (with_code s (checked code))
  checked-Halfway code g y = elim (Bool-cases (ltb max_prog (length code))) [
    | inl over ↦ rw over tt
    | inr n ↦ rw n (code, refl, g, y)
  ]

  pub open_branch-Opened : OnDone (Opened b s) (open_branch b s)
  unfolding open_branch
  open_branch-Opened =
      let w =
        opened-Grows b (length s.classes) s.code f [] (take b s.code)
          (before-Made b (length s.classes) s.code f) in
      let len = length-take b s.code f.inside in
      OnDone-bind Halfway (Opened b s) _ _
        (checked-Halfway _
          (subst
            (λ (p : ℕ).
              Grows (p ∷ []) b (length s.classes) s.code
                (opened b (length s.classes) s.code f (take b s.code)))
            len w.0)
          (subst
            (λ (p : ℕ).
              is_split (get_elem? (opened b (length s.classes) s.code f (take b s.code)) p) ≡ true)
            len w.2))
        (λ t (code, e, g, y).
          subst (λ (u : Compiler). Opened b s (emit u (jmp 0))) (sym e) (jumped-Opened code g y))

module _ (b : ℕ) (s o r : Compiler) (w : Opened b s o) (p : Parsed (length o.code) o r) where
  abbrev end : ℕ
  end = length o.code - 1

  -- The SPLIT with its targets.
  abbrev branched : List Inst
  branched = set r.code b (split (b + 1) (length o.code))

  same_split : is_split (get_elem? r.code b) ≡ true
  same_split = ap is_split (p.below b (omega (arith, w.inside))) ∙ w.at_split

  branched-length : length branched ≡ length r.code
  branched-length = length-set r.code b (split (b + 1) (length o.code))

  branched-IsFragment : IsFragment (end ∷ []) b (length r.classes) branched
  branched-IsFragment =
      let whole = extend-IsFragment (b ∷ end ∷ []) b o r w.fragment p in
      patch-IsFragment (end ∷ []) b b (length r.classes) r.code _ whole
        (split_lt r.code b same_split) (sym same_split)
        (
          omega arith,
          omega (arith, branched-length, w.inside, p.fragment.inside),
          omega (arith, w.inside),
          omega (arith, branched-length, p.fragment.inside),
        )

  still_jmp : get_elem? branched end ≡ some (jmp 0)
  still_jmp =
      get_elem?-set_ne r.code b end _ (λ e. omega (arith, e, w.inside))
      ∙ p.below end (omega (arith, w.inside))
      ∙ w.at_jmp

  closed-IsFragment : IsFragment [] b (length r.classes) (set branched end (jmp (length branched)))
  closed-IsFragment =
      let i = jmp (length branched) in
      let inside : end < length branched =
        omega (arith, branched-length, w.inside, p.fragment.inside) in
      let len = length-set branched end i in
      patch-IsFragment [] end b (length r.classes) branched i branched-IsFragment inside
        (sym (ap is_split still_jmp))
        (omega (arith, branched-IsFragment.inside), omega (arith, len), inl inside)

  pub close_branch-Parsed : Parsed b s (close_branch b (length o.code) r)
  unfolding close_branch
  close_branch-Parsed = record {
    below = λ pc lt.
        Below-set b end branched _ (omega (arith, w.inside)) pc lt
        ∙ Below-set b b r.code _ (omega arith) pc lt
        ∙ p.below pc (omega (arith, lt, w.inside))
        ∙ w.below pc lt;
    fragment =
        subst (λ (n : ℕ). IsFragment [] b (length r.classes) (set branched end (jmp n)))
          branched-length closed-IsFragment;
    classes = omega (arith, ap length w.classes, p.classes);
    groups = p.groups;
    left = omega (arith, ap length w.rest, p.left);
  }

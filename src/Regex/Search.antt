-- ===== src/Regex/Search.antt =====
-- The answers of `Matcher::run` of src/modules/regex.hpp, and the ways through the program.
use lovax.Base.{
  ℕ, zero, suc, ◌+◌, ◌≡◌, refl, sym, ap, ◌∙◌, ◌≢◌, ◌⊎◌, inl, inr, Bool, true, false, Option, none,
  some, List, ltb, ◌==◌, ==_iff, Bool-cases, ◌>>=◌, some_injective, length, get_elem?,
}
use lovax.Regex.Program.{
  class_matches, max_steps, max_depth, CharClass, Prog, Inst, char, any, class, split, jmp, save,
  bol, eol, match,
}
use lovax.Regex.Matcher.{
  set_cap, Answer, Loop, stepped, over_budget, call, pass_if, char_len, ends_inside, try_class,
  second_branch, try_second, restore, exec, exec_at, loop, enough_fuel, run, State,
}
use lovax.Regex.Paths.{
  Caps, Way-Onward, Way, at_char, at_any, at_class, at_first, at_second, at_jmp, at_save, at_bol,
  at_eol, at_match,
}
use mathlib.Core.Path.{subst, fun_ext}

true_not_false : true ≢ false
true_not_false = cc

module _ (prog : Prog) (text : List ℕ) where
  abbrev pub Fails : ℕ → ℕ → Caps → Type 0
  Fails pc sp k = (f : Caps) → ¬ (Way prog text pc sp k f)

  -- An answer is right: a match is a way, whose captures the state has; without a match the
  -- captures are as before, and there is no way unless a budget was hit.
  abbrev pub IsRight : ℕ → ℕ → Caps → Answer → Type 0
  IsRight pc sp k none = Unit
  IsRight pc sp k (some (true, st)) = Way prog text pc sp k st.caps
  IsRight pc sp k (some (false, st)) = (st.caps ≡ k) × (st.budget_hit ≡ false → Fails pc sp k)

  abbrev pub RightLoop : Loop → Type 0
  RightLoop go = (pc sp depth : ℕ) (st : State) → IsRight pc sp st.caps (go pc sp depth st)

  over_budget-IsRight : (pc sp : ℕ) (st : State) → IsRight pc sp st.caps (over_budget st)
  over_budget-IsRight pc sp st = (refl, λ h. absurd (cc))

  pub call-IsRight : (go : Loop) → RightLoop go → RightLoop (call go)
  unfolding call
  call-IsRight go right pc sp depth st = elim (Bool-cases (ltb max_steps (st.steps + 1))) [
    | inl y ↦ rw y (over_budget-IsRight pc sp (stepped st))
    | inr n ↦ rw n (elim (Bool-cases (ltb max_depth depth)) [
      | inl y ↦ rw y (over_budget-IsRight pc sp (stepped st))
      | inr n ↦ rw n (right pc sp depth (stepped st))
    ])
  ]

  -- An answer about the way that every way goes on with is right.
  onward-IsRight :
      (pc sp : ℕ) (k : Caps) (pc' sp' : ℕ)
      → ((f : Caps) → Way prog text pc' sp' k f → Way prog text pc sp k f)
      → ((f : Caps) → Way prog text pc sp k f → Way prog text pc' sp' k f)
      → (a : Answer) → IsRight pc' sp' k a
      → IsRight pc sp k a
  onward-IsRight pc sp k pc' sp' to from none r = tt
  onward-IsRight pc sp k pc' sp' to from (some (true, st)) r = to st.caps r
  onward-IsRight pc sp k pc' sp' to from (some (false, st)) (same, none_left) =
      (same, λ h f w. none_left h f (from f w))

  module _ (go : Loop) (right : RightLoop go) (pc sp depth : ℕ) (st : State) where
    pass_if-IsRight :
        (accepts : ℕ → Bool) (len : ℕ) (o : Option ℕ)
        → ((c : ℕ)
            → o ≡ some c
            → accepts c ≡ true
            → (f : Caps) → Way prog text (pc + 1) (sp + len) st.caps f
            → Way prog text pc sp st.caps f)
        → ((f : Caps)
            → Way prog text pc sp st.caps f
            → (c : ℕ) × (o ≡ some c)
              × (accepts c ≡ true)
              × Way prog text (pc + 1) (sp + len) st.caps f)
        → IsRight pc sp st.caps (pass_if prog text go accepts len o pc sp depth st)
    pass_if-IsRight accepts len none to from =
        (refl, λ h f w. let (c, e, a, v) = from f w in absurd (nothing c e))
      where
        nothing : (c : ℕ) → none ≢ some c
        nothing c = cc
    pass_if-IsRight accepts len (some c) to from = elim (Bool-cases (accepts c)) [
      | inl y ↦ rw y (
          onward-IsRight pc sp st.caps (pc + 1) (sp + len) (to c refl y) (λ f w. (from f w).3) _
            (right (pc + 1) (sp + len) depth st))
      | inr n ↦ rw n (refl, λ h f w. let (d, e, a, v) = from f w in absurd (refused d e a n))
    ]
      where
        refused : (d : ℕ) → some c ≡ some d → accepts d ≡ true → accepts c ≢ false
        refused d e a n = absurd (true_not_false (sym a ∙ ap accepts (sym (some_injective e)) ∙ n))

    second_branch-IsRight :
        (x y : ℕ) (s : State) (b : Bool)
        → s.budget_hit ≡ b
        → get_elem? prog.code pc ≡ some (split x y)
        → s.caps ≡ st.caps
        → (s.budget_hit ≡ false → Fails x sp st.caps)
        → IsRight pc sp st.caps (second_branch prog text go y sp depth s b)
    second_branch-IsRight x y s true q e same first =
        (same, λ h. absurd (true_not_false (sym q ∙ h)))
    second_branch-IsRight x y s false q e same first =
        elim (Bool-cases (ltb max_steps (s.steps + 1))) [
          | inl over ↦ rw over (same, λ h. absurd (cc))
          | inr m ↦ rw m (
              onward-IsRight pc sp st.caps y sp (λ f w. at_second e w)
                (λ f w. other (first q) f (Way-Onward prog text pc sp st.caps f (split x y) e w)) _
                (subst (λ (k : Caps). IsRight y sp k (go y sp depth (stepped s))) same
                  (right y sp depth (stepped s))))
        ]
      where
        other :
            Fails x sp st.caps
            → (f : Caps) → Way prog text x sp st.caps f ⊎ Way prog text y sp st.caps f
            → Way prog text y sp st.caps f
        other never f (inl w) = absurd (never f w)
        other never f (inr w) = w

    -- After the first branch of a SPLIT.
    split-IsRight :
        (x y : ℕ) (a : Answer)
        → get_elem? prog.code pc ≡ some (split x y)
        → IsRight x sp st.caps a
        → IsRight pc sp st.caps (a >>= try_second prog text go y sp depth)
    unfolding try_second
    split-IsRight x y none e r = tt
    split-IsRight x y (some (true, s)) e r = at_first e r
    split-IsRight x y (some (false, s)) e (same, first) =
        second_branch-IsRight x y s s.budget_hit refl e same first

    -- After the rest of the match that follows a SAVE.
    save-IsRight :
        (x : ℕ) (a : Answer)
        → get_elem? prog.code pc ≡ some (save x)
        → IsRight (pc + 1) sp (set_cap st.caps x (some sp)) a
        → IsRight pc sp st.caps (a >>= restore prog text x (st.caps x))
    save-IsRight x none e r = tt
    save-IsRight x (some (true, s)) e r = at_save e r
    save-IsRight x (some (false, s)) e (same, never) = (
      ap (λ (k : Caps). set_cap k x (st.caps x)) same ∙ put_back,
      λ h f w. never h f (Way-Onward prog text pc sp st.caps f (save x) e w),
    )
      where
        put_back : set_cap (set_cap st.caps x (some sp)) x (st.caps x) ≡ st.caps
        put_back = fun_ext λ y. elim (Bool-cases (y == x)) [
          | inl q ↦ rw q (ap st.caps (sym ((==_iff y x).0 q)))
          | inr q ↦ rw q refl
        ]

  exec-IsRight :
      (go : Loop)
      → RightLoop go
      → (pc sp depth : ℕ) (st : State) (i : Inst) → get_elem? prog.code pc ≡ some i
      → IsRight pc sp st.caps (exec prog text go i pc sp depth st)
  unfolding exec
  exec-IsRight go right pc sp depth st (char c) e =
      pass_if-IsRight go right pc sp depth st (λ b. b == c) 1 (get_elem? text sp)
        (λ b t y f w. at_char e (t ∙ ap some ((==_iff b c).0 y)) w)
        (λ f w.
          let (t, v) = Way-Onward prog text pc sp st.caps f (char c) e w in
          (c, t, (==_iff c c).1 refl, v))
  exec-IsRight go right pc sp depth st any e =
      pass_if-IsRight go right pc sp depth st (ends_inside prog text sp)
        (char_len prog text (get_elem? text sp)) (get_elem? text sp)
        (λ c t y f w. at_any e t y (
          subst (λ (n : ℕ). Way prog text (pc + 1) (sp + n) st.caps f) (ap (char_len prog text) t)
            w))
        (λ f w.
          let (c, t, y, v) = Way-Onward prog text pc sp st.caps f any e w in
          (
            c,
            t,
            y,
            subst (λ (n : ℕ). Way prog text (pc + 1) (sp + n) st.caps f)
                (ap (char_len prog text) (sym t)) v,
          ))
  exec-IsRight go right pc sp depth st (class i) e = try (get_elem? prog.classes i) refl
    where
      try :
          (o : Option CharClass)
          → get_elem? prog.classes i ≡ o
          → IsRight pc sp st.caps (try_class prog text go o pc sp depth st)
      try none q = tt
      try (some cc) q =
          pass_if-IsRight go right pc sp depth st (class_matches cc) 1 (get_elem? text sp)
            (λ c t y f w. at_class e q t y w)
            (λ f w.
              let (dd, c, p, t, y, v) = Way-Onward prog text pc sp st.caps f (class i) e w in
              (c, t, ap (λ (x : CharClass). class_matches x c) (some_injective (sym q ∙ p)) ∙ y, v))
  exec-IsRight go right pc sp depth st (split x y) e =
      split-IsRight go right pc sp depth st x y (call go x sp (depth + 1) st) e
        (call-IsRight go right x sp (depth + 1) st)
  exec-IsRight go right pc sp depth st (jmp x) e =
      onward-IsRight pc sp st.caps x sp (λ f w. at_jmp e w)
        (λ f w. Way-Onward prog text pc sp st.caps f (jmp x) e w) _ (right x sp depth st)
  exec-IsRight go right pc sp depth st (save x) e = save-IsRight go right pc sp depth st x _ e (
      call-IsRight go right (pc + 1) sp (depth + 1)
        (record st { caps = set_cap st.caps x (some sp) }))
  exec-IsRight go right pc sp depth st bol e = elim (Bool-cases (sp == 0)) [
    | inl y ↦ rw y (
        onward-IsRight pc sp st.caps (pc + 1) sp (λ f w. at_bol e ((==_iff sp 0).0 y) w)
          (λ f w. (Way-Onward prog text pc sp st.caps f bol e w).1) _ (right (pc + 1) sp depth st))
    | inr n ↦ rw n (
      refl,
      λ h f w.
          true_not_false
            (sym ((==_iff sp 0).1 ((Way-Onward prog text pc sp st.caps f bol e w).0)) ∙ n),
    )
  ]
  exec-IsRight go right pc sp depth st eol e = elim (Bool-cases (sp == length text)) [
    | inl y ↦ rw y (
        onward-IsRight pc sp st.caps (pc + 1) sp (λ f w. at_eol e ((==_iff sp _).0 y) w)
          (λ f w. (Way-Onward prog text pc sp st.caps f eol e w).1) _ (right (pc + 1) sp depth st))
    | inr n ↦ rw n (
      refl,
      λ h f w.
          true_not_false
            (sym ((==_iff sp _).1 ((Way-Onward prog text pc sp st.caps f eol e w).0)) ∙ n),
    )
  ]
  exec-IsRight go right pc sp depth st match e = at_match e

  loop-IsRight : (fuel : ℕ) → RightLoop (loop prog text fuel)
  unfolding loop
  loop-IsRight zero pc sp depth st = tt
  loop-IsRight (suc fuel) pc sp depth st = fetch (get_elem? prog.code pc) refl (loop-IsRight fuel)
    where
      fetch :
          (o : Option Inst)
          → get_elem? prog.code pc ≡ o
          → RightLoop (loop prog text fuel)
          → IsRight pc sp st.caps (exec_at prog text (loop prog text fuel) o pc sp depth st)
      fetch none q right = tt
      fetch (some i) q right = exec-IsRight (loop prog text fuel) right pc sp depth st i q

  pub run-IsRight : RightLoop (run prog text)
  unfolding run
  run-IsRight pc sp depth st =
      call-IsRight (loop prog text (enough_fuel prog text)) (loop-IsRight _) pc sp depth st

-- ===== src/Regex/Ends.antt =====
-- How many turns the loop of `Matcher::run` of src/modules/regex.hpp takes.
use lovax.Base.{
  ℕ, zero, suc, ◌+◌, ◌-◌, ◌*◌, ◌≤◌, ◌<◌, ◌≡◌, ap, ◌⊎◌, inl, inr, Bool, true, false, Option, none,
  some, List, arith, ltb, ◌==◌, if◌then◌else◌, Bool-cases, ◌>>=◌, length, get_elem?, get_elem?-some,
}
use lovax.Regex.Program.{
  class_matches, max_groups, max_steps, max_depth, Prog, Inst, char, any, class, split, jmp, save,
  bol, eol, match,
}
use lovax.Regex.Matcher.{
  set_cap, Answer, Loop, stepped, call, pass_if, second_branch, try_second, restore, exec, loop,
  enough_fuel, run, State,
}
use native.Mathlib.Nat.{mul-le-mul_right, suc-mul}

abbrev pub is_split : Option Inst → Bool
is_split (some (split x y)) = true
is_split _ = false

-- What an instruction at `pc` needs of its program: it goes on inside the program, a JMP goes
-- forwards or to a SPLIT, its class is there, and a SAVE has a slot of `caps`.
abbrev pub Fits : Prog → ℕ → Inst → Type 0
Fits prog pc (class i) = (pc + 1 < length prog.code) × (i < length prog.classes)
Fits prog pc (split x y) = (x < length prog.code) × (y < length prog.code)
Fits prog pc (jmp x) =
    (x < length prog.code) × ((pc < x) ⊎ (is_split (get_elem? prog.code x) ≡ true))
Fits prog pc (save x) = (pc + 1 < length prog.code) × (x < max_groups * 2)
Fits prog pc match = Unit
Fits prog pc _ = pc + 1 < length prog.code

-- A program whose instructions all fit.
pub record IsProgram (prog : Prog) : Type 0 where
  pub starts : 0 < length prog.code
  pub fits : (pc : ℕ) (i : Inst) → get_elem? prog.code pc ≡ some i → Fits prog pc i

module _ (prog : Prog) (text : List ℕ) (good : IsProgram prog) where
  abbrev size : ℕ
  size = length prog.code

  abbrev left : State → ℕ
  left st = max_steps + 1 - st.steps

  abbrev rank_of : Option Inst → ℕ → ℕ
  rank_of o pc = if is_split o then 0 else size + 1 - pc

  -- The turns that an instruction may take before steps are counted.
  abbrev rank : ℕ → ℕ
  rank pc = rank_of (get_elem? prog.code pc) pc

  -- The answer is there, and at least `n` steps have been counted.
  abbrev pub Ends : ℕ → Answer → Type 0
  Ends n none = ⊥
  Ends n (some (b, st)) = n ≤ st.steps

  abbrev EndsWithin : ℕ → Loop → Type 0
  EndsWithin fuel go =
      (pc sp depth : ℕ) (st : State)
      → pc < size
      → left st * (size + 2) + rank pc < fuel
      → Ends st.steps (go pc sp depth st)

  rank_le : (pc : ℕ) → rank pc ≤ size + 1 - pc
  rank_le pc = elim (Bool-cases (is_split (get_elem? prog.code pc))) [
    | inl y ↦ rw y (omega arith)
    | inr n ↦ rw n (omega arith)
  ]

  fewer_left : (a b r k fuel : ℕ) → b + 1 ≤ a → r < k → a * k ≤ fuel → b * k + r < fuel
  fewer_left a b r k fuel h lt le = omega (arith, mul-le-mul_right k h, suc-mul b k, le, lt)

  Ends-le : (m n : ℕ) (a : Answer) → m ≤ n → Ends n a → Ends m a
  Ends-le m n none h e = e
  Ends-le m n (some (b, st)) h e = omega (arith, h, e)

  module _ (fuel : ℕ) (go : Loop) (ends : EndsWithin fuel go) where
    call-Ends :
        (pc sp depth : ℕ) (st : State)
        → pc < size
        → left st * (size + 2) ≤ fuel
        → Ends (st.steps + 1) (call go pc sp depth st)
    unfolding call
    call-Ends pc sp depth st h le = elim (Bool-cases (ltb max_steps (st.steps + 1))) [
      | inl y ↦ rw y (omega arith)
      | inr n ↦ rw n (elim (Bool-cases (ltb max_depth depth)) [
        | inl y ↦ rw y (omega arith)
        | inr m ↦ rw m (
            ends pc sp depth (stepped st) h (
              fewer_left (left st) (left (stepped st)) (rank pc) (size + 2) fuel (ground (arith, n))
                (omega (arith, rank_le pc)) le))
      ])
    ]

    module _ (pc sp depth : ℕ) (st : State) (h : pc < size) where
      -- The next instruction is reached with less fuel.
      next-Ends :
          (sp' : ℕ)
          → left st * (size + 2) + (size + 1 - pc) < suc fuel
          → pc + 1 < size
          → Ends st.steps (go (pc + 1) sp' depth st)
      next-Ends sp' lt on = ends (pc + 1) sp' depth st on (omega (arith, rank_le (pc + 1), lt))

      pass_if-Ends :
          (accepts : ℕ → Bool) (len : ℕ) (o : Option ℕ)
          → left st * (size + 2) + (size + 1 - pc) < suc fuel
          → pc + 1 < size
          → Ends st.steps (pass_if prog text go accepts len o pc sp depth st)
      pass_if-Ends accepts len none lt on = omega arith
      pass_if-Ends accepts len (some c) lt on = elim (Bool-cases (accepts c)) [
        | inl y ↦ rw y (next-Ends (sp + len) lt on)
        | inr n ↦ rw n (omega arith)
      ]

      second_branch-Ends :
          (y : ℕ) (s : State) (b : Bool)
          → y < size
          → left st * (size + 2) ≤ fuel
          → st.steps + 1 ≤ s.steps
          → Ends st.steps (second_branch prog text go y sp depth s b)
      second_branch-Ends y s true hy le more = omega (arith, more)
      second_branch-Ends y s false hy le more = elim (Bool-cases (ltb max_steps (s.steps + 1))) [
        | inl over ↦ rw over (omega (arith, more))
        | inr n ↦ rw n (
            Ends-le st.steps (s.steps + 1) _ (omega (arith, more)) (
              ends y sp depth (stepped s) hy (
                fewer_left (left st) (left (stepped s)) (rank y) (size + 2) fuel
                  (ground (arith, n, more)) (omega (arith, rank_le y)) le)))
      ]

      split-Ends :
          (y : ℕ) (a : Answer)
          → y < size
          → left st * (size + 2) ≤ fuel
          → Ends (st.steps + 1) a
          → Ends st.steps (a >>= try_second prog text go y sp depth)
      unfolding try_second
      split-Ends y none hy le e = e
      split-Ends y (some (true, s)) hy le e = omega (arith, e)
      split-Ends y (some (false, s)) hy le e = second_branch-Ends y s s.budget_hit hy le e

      save-Ends :
          (x : ℕ) (old : Option ℕ) (a : Answer)
          → Ends (st.steps + 1) a
          → Ends st.steps (a >>= restore prog text x old)
      save-Ends x old none e = e
      save-Ends x old (some (true, s)) e = omega (arith, e)
      save-Ends x old (some (false, s)) e = omega (arith, e)

      jmp-Ends :
          (x : ℕ)
          → left st * (size + 2) + (size + 1 - pc) < suc fuel
          → x < size
          → (pc < x) ⊎ (is_split (get_elem? prog.code x) ≡ true)
          → Ends st.steps (go x sp depth st)
      jmp-Ends x lt hx (inl on) = ends x sp depth st hx (omega (arith, rank_le x, lt, on))
      jmp-Ends x lt hx (inr s) = ends x sp depth st hx (rw s (omega (arith, lt, h)))

      exec-Ends :
          (i : Inst)
          → get_elem? prog.code pc ≡ some i
          → Fits prog pc i
          → left st * (size + 2) + rank_of (some i) pc < suc fuel
          → Ends st.steps (exec prog text go i pc sp depth st)
      unfolding exec
      exec-Ends (char c) e fit lt = pass_if-Ends _ 1 (get_elem? text sp) lt fit
      exec-Ends any e fit lt = pass_if-Ends _ _ (get_elem? text sp) lt fit
      exec-Ends (class i) e (on, there) lt =
          let (cc, q) = get_elem?-some prog.classes i there in
          rw q (pass_if-Ends (class_matches cc) 1 (get_elem? text sp) lt on)
      exec-Ends (split x y) e (hx, hy) lt =
          split-Ends y (call go x sp (depth + 1) st) hy (omega (arith, lt))
            (call-Ends x sp (depth + 1) st hx (omega (arith, lt)))
      exec-Ends (jmp x) e (hx, to) lt = jmp-Ends x lt hx to
      exec-Ends (save x) e (on, slot) lt =
          let st' = record st { caps = set_cap st.caps x (some sp) } in
          save-Ends x (st.caps x) (call go (pc + 1) sp (depth + 1) st')
            (call-Ends (pc + 1) sp (depth + 1) st' on (omega (arith, lt)))
      exec-Ends bol e fit lt = elim (Bool-cases (sp == 0)) [
        | inl y ↦ rw y (next-Ends sp lt fit)
        | inr n ↦ rw n (omega arith)
      ]
      exec-Ends eol e fit lt = elim (Bool-cases (sp == length text)) [
        | inl y ↦ rw y (next-Ends sp lt fit)
        | inr n ↦ rw n (omega arith)
      ]
      exec-Ends match e fit lt = omega arith

  loop-Ends : (fuel : ℕ) → EndsWithin fuel (loop prog text fuel)
  unfolding loop
  loop-Ends zero pc sp depth st h lt = absurd (omega (arith, lt))
  loop-Ends (suc fuel) pc sp depth st h lt =
      let (i, e) = get_elem?-some prog.code pc h in
      rw e (
        exec-Ends fuel (loop prog text fuel) (loop-Ends fuel) pc sp depth st h i e
          (good.fits pc i e) (omega (arith, lt, ap (λ (o : Option Inst). rank_of o pc) e)))

  pub run-Ends :
      (pc sp depth : ℕ) (st : State)
      → pc < size
      → Ends (st.steps + 1) (run prog text pc sp depth st)
  unfolding run
  run-Ends pc sp depth st h =
      call-Ends (enough_fuel prog text) (loop prog text _) (loop-Ends _) pc sp depth st h
        (omega (arith, mul-le-mul_right (size + 2) (left_le st)))
    where
      left_le : (st : State) → left st ≤ max_steps + 1
      left_le st = omega arith

-- ===== src/Regex/Matcher.antt =====
-- The backtracking matcher of src/modules/regex.hpp, `Matcher::run` and `matchAt`. The text is a
-- parameter, as the program is; a slot of `caps` that is `npos` is none.
use lovax.Base.{
  ℕ, zero, suc, ◌+◌, ◌*◌, Bool, true, false, not, ◌&&◌, Option, none, some, List, ltb, leb, ◌==◌,
  if◌then◌else◌, ◌>>=◌, length, get_elem?,
}
use lovax.Regex.Program.{
  class_matches, max_steps, max_depth, utf8_char_len, CharClass, Prog, Inst, char, any, class,
  split, jmp, save, bol, eol, match,
}

pub record State : Type 0 where
  pub steps : ℕ
  pub budget_hit : Bool
  pub caps : ℕ → Option ℕ

-- `caps[x] = v`
abbrev pub set_cap : (ℕ → Option ℕ) → ℕ → Option ℕ → ℕ → Option ℕ
set_cap caps x v y = if y == x then v else caps y

-- Whether a run matched, and the state after it. It is none if the fuel ran out, or where the
-- source reads the code or the classes out of range.
abbrev pub Answer : Type 0
Answer = Option (Bool × State)

-- The loop of a run, from an instruction, a position and a depth.
abbrev pub Loop : Type 0
Loop = ℕ → ℕ → ℕ → State → Answer

abbrev pub stepped : State → State
stepped st = record st { steps = st.steps + 1 }

abbrev pub over_budget : State → Answer
over_budget st = some (false, record st { budget_hit = true })

-- The head of `run`: the budgets of steps and of depth.
unfoldable pub call : Loop → Loop
call go pc sp depth st =
    let counted = stepped st in
    if ltb max_steps counted.steps
    then over_budget counted
    else if ltb max_depth depth
    then over_budget counted
    else go pc sp depth counted

module _ (prog : Prog) (text : List ℕ) where
  -- A character that a test accepts is passed.
  abbrev pub pass_if : Loop → (ℕ → Bool) → ℕ → Option ℕ → Loop
  pass_if go accepts len none pc sp depth st = some (false, st)
  pass_if go accepts len (some c) pc sp depth st =
      if accepts c then go (pc + 1) (sp + len) depth st else some (false, st)

  abbrev pub char_len : Option ℕ → ℕ
  char_len none = 0
  char_len (some c) = utf8_char_len c

  -- `.` takes a whole code point, which has to end inside the text.
  abbrev pub ends_inside : ℕ → ℕ → Bool
  ends_inside sp c = not (c == b'\n') && leb (sp + utf8_char_len c) (length text)

  abbrev pub try_class : Loop → Option CharClass → Loop
  try_class go none pc sp depth st = none
  try_class go (some cc) pc sp depth st =
      pass_if go (class_matches cc) 1 (get_elem? text sp) pc sp depth st

  -- `if (budgetHit) return false;` and the second branch of a SPLIT.
  abbrev pub second_branch : Loop → ℕ → ℕ → ℕ → State → Bool → Answer
  second_branch go y sp depth st true = some (false, st)
  second_branch go y sp depth st false =
      if ltb max_steps (st.steps + 1) then over_budget (stepped st) else go y sp depth (stepped st)

  -- After the first branch of a SPLIT.
  unfoldable pub try_second : Loop → ℕ → ℕ → ℕ → Bool × State → Answer
  try_second go y sp depth (true, st) = some (true, st)
  try_second go y sp depth (false, st) = second_branch go y sp depth st st.budget_hit

  -- After the rest of the match that follows a SAVE.
  abbrev pub restore : ℕ → Option ℕ → Bool × State → Answer
  restore x old (true, st) = some (true, st)
  restore x old (false, st) = some (false, record st { caps = set_cap st.caps x old })

  -- One turn of the loop of `run`, the further turns in `go`.
  unfoldable pub exec : Loop → Inst → Loop
  unfolding call try_second
  exec go (char c) pc sp depth st = pass_if go (λ b. b == c) 1 (get_elem? text sp) pc sp depth st
  exec go any pc sp depth st =
      pass_if go (ends_inside sp) (char_len (get_elem? text sp)) (get_elem? text sp) pc sp depth st
  exec go (class i) pc sp depth st = try_class go (get_elem? prog.classes i) pc sp depth st
  exec go (split x y) pc sp depth st = call go x sp (depth + 1) st >>= try_second go y sp depth
  exec go (jmp x) pc sp depth st = go x sp depth st
  exec go (save x) pc sp depth st =
      call go (pc + 1) sp (depth + 1) (record st { caps = set_cap st.caps x (some sp) })
      >>= restore x (st.caps x)
  exec go bol pc sp depth st = if sp == 0 then go (pc + 1) sp depth st else some (false, st)
  exec go eol pc sp depth st =
      if sp == length text then go (pc + 1) sp depth st else some (false, st)
  exec go match pc sp depth st = some (true, st)

  abbrev pub exec_at : Loop → Option Inst → Loop
  exec_at go none pc sp depth st = none
  exec_at go (some inst) pc sp depth st = exec go inst pc sp depth st

  unfoldable pub loop : ℕ → Loop
  unfolding exec
  loop zero pc sp depth st = none
  loop (suc fuel) pc sp depth st = exec_at (loop fuel) (get_elem? prog.code pc) pc sp depth st

  -- More turns than the budget of steps leaves to a program of this size.
  abbrev pub enough_fuel : ℕ
  enough_fuel = (max_steps + 1) * (length prog.code + 2) + 1

  -- `run`
  unfoldable pub run : Loop
  unfolding loop call
  run pc sp depth st = call (loop enough_fuel) pc sp depth st

  -- `matchAt`: the captures begin empty, and the steps go on counting.
  unfoldable pub match_at : ℕ → State → Answer
  unfolding run
  match_at from st = run 0 from 0 (record st { caps = λ y. none })

abbrev pub new_state : State
new_state = record { steps = 0; budget_hit = false; caps = λ y. none }

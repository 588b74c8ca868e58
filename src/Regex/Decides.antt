-- ===== src/Regex/Decides.antt =====
-- Matching with a compiled pattern in src/modules/regex.hpp.
use lovax.Regex.Finished.{start_state, whole-IsProgram}
use lovax.Base.{ℕ, ◌+◌, ◌≤◌, ◌<◌, ◌≡◌, true, false, none, some, List, [], ◌∷◌, arith, length}
use lovax.Regex.Program.{Prog, save, match}
use lovax.Regex.Matcher.{Answer, run, match_at, State}
use lovax.Regex.Paths.{Caps, Way}
use lovax.Regex.Search.{Fails, IsRight, run-IsRight}
use lovax.Regex.Ends.{Ends, run-Ends, IsProgram}
use lovax.Regex.Classes.{unexpected_paren}
use lovax.Regex.Compiler.{emit, finish, compile, program, Compiler, done, failed}
use lovax.Regex.Parsed.{Counts, OnDone, OnDone-bind, Parsed}
use lovax.Regex.Compiles.{start-Parsed}
use lovax.Regex.Whole.{whole-IsWhole, IsWhole}
use lovax.Regex.Within.{Bounded, match-Within}

abbrev pub no_caps : Caps
no_caps y = none

-- A match that begins at `from`: its end and its captures lie in the text.
pub record IsMatch (prog : Prog) (text : List ℕ) (from : ℕ) (f : Caps) : Type 0 where
  pub way : Way prog text 0 from no_caps f
  pub begins_at : f 0 ≡ some from
  pub bounded : Bounded prog text f
  pub end : ℕ
  pub ends_at : f 1 ≡ some end
  pub forwards : from ≤ end
  pub inside : end ≤ length text

-- What a try at `from` answers.
abbrev pub Decided : Prog → List ℕ → ℕ → State → Answer → Type 0
Decided prog text from st none = ⊥
Decided prog text from st (some (true, s)) = IsMatch prog text from s.caps × (st.steps < s.steps)
Decided prog text from st (some (false, s)) =
    (s.budget_hit ≡ false → Fails prog text 0 from no_caps) × (st.steps < s.steps)

-- A program that a pattern compiles to.
pub record IsCompiled (prog : Prog) : Type 0 where
  pub safe : IsProgram prog
  pub groups : Counts prog.group_count
  pub end : ℕ
  pub shape : IsWhole prog end

-- In the program of a pattern, a try of matchAt at a position of the text always ends, with
-- at least one more step counted. If it matches, its captures are those of a way through the
-- program to MATCH, slots 0 and 1 are set and delimit an interval of the text that begins at
-- the position, and all captures lie in the text; if it does not and no budget was hit, no
-- such way exists.
pub match_at-Decided :
    (prog : Prog) (text : List ℕ) (from : ℕ) (st : State)
    → IsCompiled prog
    → from ≤ length text
    → Decided prog text from st (match_at prog text from st)
unfolding match_at
match_at-Decided prog text from st c h =
    let fresh = record st { caps = no_caps } in
    both (run prog text 0 from 0 fresh) (run-IsRight prog text 0 from 0 fresh)
      (run-Ends prog text c.safe 0 from 0 fresh c.safe.starts)
  where
    both :
        (a : Answer)
        → IsRight prog text 0 from no_caps a
        → Ends prog text c.safe (st.steps + 1) a
        → Decided prog text from st a
    both none r e = absurd e
    both (some (true, s)) r e =
        let (begin, bounded, b, q, low, high) =
          match-Within prog text c.end c.shape from s.caps h r in
        (
          record {
            way = r;
            begins_at = begin;
            bounded = bounded;
            end = b;
            ends_at = q;
            forwards = low;
            inside = high;
          },
          omega (arith, e),
        )
    both (some (false, s)) r e = (r.1, omega (arith, e))

-- For every pattern the compiler ends with an error or with a program. All instructions of a
-- program stay inside it, name classes that are there and slots below twenty, and jump
-- forwards or to a SPLIT; slot 0 is saved by the first instruction, slot 1 only by the last
-- SAVE, which the MATCH follows; there are at most ten groups.
pub compile-IsCompiled : (pat : List ℕ) → OnDone (λ s. IsCompiled (program s)) (compile pat)
unfolding compile
compile-IsCompiled pat =
    OnDone-bind (Parsed 1 (start_state pat)) (λ s. IsCompiled (program s)) _ finish
      (start-Parsed pat) (λ r p. finished r p r.rest)
  where
    finished :
        (r : Compiler)
        → Parsed 1 (start_state pat) r
        → (rest : List ℕ)
        → OnDone
            (λ s. IsCompiled (program s))
            (elim rest [
              | [] ↦ done (emit (emit r (save 1)) match)
              | c ∷ rest ↦ failed unexpected_paren
            ])
    finished r p [] = record {
      safe = whole-IsProgram pat r p;
      groups = p.groups;
      end = length r.code;
      shape = whole-IsWhole pat r p;
    }
    finished r p (c ∷ rest) = tt

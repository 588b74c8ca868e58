-- ===== src/Regex/Compiles.antt =====
-- The compiler of src/modules/regex.hpp as a whole.
use lovax.Regex.Finished.{start_state}
use lovax.Base.{
  ℕ, zero, suc, ◌+◌, ◌*◌, ◌<◌, ◌≡◌, refl, ap, Bool, true, false, List, [], arith, length,
}
use lovax.Regex.Classes.{begins, tail}
use lovax.Regex.Fragment.{IsFragment}
use lovax.Regex.Shorter.{length-tail_lt}
use lovax.Regex.Compiler.{
  ◌>>>◌, piece, open_branch, close_branch, ends_sequence, parse, Compiler, done, Task, alternatives,
  further, sequence,
}
use lovax.Regex.Parsed.{
  Counts, OnDone, OnDone-bind, OnDone-map, Parsed-then, Parsed-again, empty-IsFragment,
  nothing-Parsed, Parsed,
}
use lovax.Regex.Atoms.{shorter-Parsed}
use lovax.Regex.Pieces.{Advanced, piece-Advanced}
use lovax.Regex.Alternation.{open_branch-Opened, close_branch-Parsed, Opened}
use mathlib.Core.Path.{subst}

-- What a task needs: the alternation begins with a fragment.
abbrev Ready : Task → Compiler → Type 0
Ready (further start) s = IsFragment [] start (length s.classes) s.code
Ready _ s = Unit

abbrev begins_at : Task → Compiler → ℕ
begins_at (further start) s = start
begins_at _ s = length s.code

-- Calls of `parse` that the pattern allows.
abbrev weight : Task → ℕ → ℕ
weight alternatives n = 3 * n + 3
weight (further start) n = 3 * n + 2
weight sequence n = 3 * n + 1

abbrev Parses : ℕ → Type 0
Parses fuel =
    (task : Task) (s : Compiler)
    → Counts s.group_count
    → weight task (length s.rest) < fuel
    → Ready task s
    → OnDone (Parsed (begins_at task s) s) (parse fuel task s)

module _ (fuel : ℕ) (parses : Parses fuel) where
  -- The branches that follow a bar.
  branch-Parsed :
      (start : ℕ) (s : Compiler)
      → Counts s.group_count
      → begins b'|' s.rest ≡ true
      → 3 * length s.rest + 1 < fuel
      → IsFragment [] start (length s.classes) s.code
      → OnDone (Parsed start s) (
          open_branch start (record s { rest = tail s.rest }) >>> λ o.
          parse fuel sequence o >>> λ r.
          parse fuel (further start) (close_branch start (length o.code) r))
  branch-Parsed start s g bar lt f =
      let after = record s { rest = tail s.rest } in
      let less = length-tail_lt b'|' s.rest bar in
      OnDone-bind (Opened start after) (Parsed start s) _ _ (open_branch-Opened start after f)
        (λ o w.
          OnDone-bind (Parsed (length o.code) o) (Parsed start s) _ _
            (parses sequence o (subst Counts w.groups g) (omega (arith, ap length w.rest, less, lt))
              tt)
            (λ r p.
              let closed = close_branch start (length o.code) r in
              let q = close_branch-Parsed start after o r w p in
              let whole = shorter-Parsed start s closed (tail s.rest) (omega (arith, less)) q in
              OnDone-map (Parsed start closed) (Parsed start s) _
                (parses (further start) closed q.groups (omega (arith, q.left, less, lt))
                  q.fragment)
                (λ t u. Parsed-again start s closed t whole u)))

  -- A piece, and the sequence after it.
  pieces-Parsed :
      (s : Compiler)
      → Counts s.group_count
      → 3 * length s.rest < fuel
      → OnDone
          (Parsed (length s.code) s)
          (piece (parse fuel alternatives) s >>> parse fuel sequence)
  pieces-Parsed s g lt =
      OnDone-bind (Advanced s) (Parsed (length s.code) s) _ _
        (piece-Advanced (length s.rest) (parse fuel alternatives)
          (λ t h less. parses alternatives t h (omega (arith, less, lt)) tt) s g (omega arith))
        (λ t (p, less).
          OnDone-map (Parsed (length t.code) t) (Parsed (length s.code) s) _
            (parses sequence t p.groups (omega (arith, less, lt)) tt)
            (λ r q. Parsed-then (length s.code) s t r p q))

parse-Parsed : (fuel : ℕ) → Parses fuel
unfolding parse
parse-Parsed zero task s g lt ready = absurd (omega (arith, lt))
parse-Parsed (suc fuel) alternatives s g lt ready =
    OnDone-bind (Parsed (length s.code) s) (Parsed (length s.code) s) _ _
      (parse-Parsed fuel sequence s g (omega (arith, lt)) tt)
      (λ t p.
        OnDone-map (Parsed (length s.code) t) (Parsed (length s.code) s) _
          (parse-Parsed fuel (further (length s.code)) t p.groups (omega (arith, p.left, lt))
            p.fragment)
          (λ r q. Parsed-again (length s.code) s t r p q))
parse-Parsed (suc fuel) (further start) s g lt ready =
    bar (begins b'|' s.rest) refl
      (λ y. branch-Parsed fuel (parse-Parsed fuel) start s g y (omega (arith, lt)) ready)
  where
    bar :
        (more : Bool)
        → begins b'|' s.rest ≡ more
        → (begins b'|' s.rest ≡ true
            → OnDone (Parsed start s) (
                open_branch start (record s { rest = tail s.rest }) >>> λ o.
                parse fuel sequence o >>> λ r.
                parse fuel (further start) (close_branch start (length o.code) r)))
        → OnDone (Parsed start s) (elim more [
          | false ↦ done s
          | true ↦ open_branch start (record s { rest = tail s.rest }) >>> λ o.
              parse fuel sequence o >>> λ r.
              parse fuel (further start) (close_branch start (length o.code) r)
        ])
    bar false y h = nothing-Parsed start s ready g
    bar true y h = h y
parse-Parsed (suc fuel) sequence s g lt ready =
    stop (ends_sequence s.rest) (pieces-Parsed fuel (parse-Parsed fuel) s g (omega (arith, lt)))
  where
    stop :
        (ends : Bool)
        → OnDone
            (Parsed (length s.code) s)
            (piece (parse fuel alternatives) s >>> parse fuel sequence)
        → OnDone (Parsed (length s.code) s) (elim ends [
          | true ↦ done s
          | false ↦ piece (parse fuel alternatives) s >>> parse fuel sequence
        ])
    stop true h = nothing-Parsed (length s.code) s (empty-IsFragment (length s.classes) s.code) g
    stop false h = h

-- `parseAlt` of the whole pattern.
pub start-Parsed :
    (pat : List ℕ)
    → OnDone
        (Parsed 1 (start_state pat))
        (parse (3 * length pat + 4) alternatives (start_state pat))
start-Parsed pat =
    parse-Parsed (3 * length pat + 4) alternatives (start_state pat) (omega arith, omega arith)
      (omega arith) tt

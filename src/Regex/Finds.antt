-- ===== src/Regex/Finds.antt =====
-- `search` and `find_all` of src/modules/regex.hpp.
use lovax.Base.{
  ℕ, zero, suc, ◌+◌, ◌≤◌, ◌<◌, ◌≡◌, refl, sym, Option, none, some, List, [], ◌∷◌, arith, length,
}
use lovax.Regex.Program.{Prog}
use lovax.Regex.Matcher.{match_at, new_state, State}
use lovax.Regex.Search.{Fails}
use lovax.Regex.Decides.{no_caps, match_at-Decided, IsMatch, IsCompiled}
use lovax.Regex.Functions.{clipped, whole_text, first_match, search, find_all_from, find_all}
use lovax.Regex.Turns.{
  OnReturned, OnReturned-then, OnReturned-map, substr-OnReturned, after_match, after_match_lt,
  tried-OnReturned, while_inside-OnReturned, spanned-OnReturned, whole_text-OnReturned,
}
use mathlib.Core.Path.{subst}
use native.Mathlib.Decide.{ℕ_discrete}

-- The matches from a position on: the next one is looked for behind a match, and behind the next
-- character after an empty one; a position that is passed over has no match.
pub data Finds (prog : Prog) (text : List ℕ) : ℕ → List (List ℕ) → Type 0 where
  past : {from : ℕ} → length text < from → Finds prog text from []
  found :
      {from : ℕ} {f : ℕ → Option ℕ} {ts : List (List ℕ)} (m : IsMatch prog text from f)
      → Finds prog text (after_match from m.end) ts
      → Finds prog text from (clipped text from (some m.end) ∷ ts)
  passed :
      {from : ℕ} {ts : List (List ℕ)}
      → from ≤ length text
      → Fails prog text 0 from no_caps
      → Finds prog text (from + 1) ts
      → Finds prog text from ts

-- The first match at `from` or later.
abbrev pub FirstMatch : Prog → List ℕ → ℕ → Option (List ℕ) → Type 0
FirstMatch prog text from none =
    (at : ℕ) → from ≤ at → at ≤ length text → Fails prog text 0 at no_caps
FirstMatch prog text from (some t) =
    (at : ℕ) × (f : ℕ → Option ℕ) × (m : IsMatch prog text at f) × (t
      ≡ clipped text at (some m.end))
    × (from ≤ at)
    × ((p : ℕ) → from ≤ p → p < at → Fails prog text 0 p no_caps)

module _ (prog : Prog) (text : List ℕ) (c : IsCompiled prog) where
  -- A position without a match does not change what is the first one.
  passed_over :
      (from : ℕ) (t : Option (List ℕ))
      → Fails prog text 0 from no_caps
      → FirstMatch prog text (from + 1) t
      → FirstMatch prog text from t
  passed_over from none fails h = λ at low high. elim (ℕ_discrete from at) [
    | yes same ↦ subst (λ (p : ℕ). Fails prog text 0 p no_caps) same fails
    | no n ↦ h at (omega (arith, low, n)) high
  ]
  passed_over from (some t) fails (at, f, m, e, low, before) = (
    at,
    f,
    m,
    e,
    omega (arith, low),
    λ p lo lt. elim (ℕ_discrete from p) [
      | yes same ↦ subst (λ (p : ℕ). Fails prog text 0 p no_caps) same fails
      | no n ↦ before p (omega (arith, lo, n)) lt
    ],
  )

  first_match-FirstMatch :
      (turns from : ℕ) (st : State)
      → turns + from ≡ length text + 1
      → OnReturned
          (FirstMatch prog text from)
          (first_match prog text (whole_text text) turns from st)
  unfolding first_match
  first_match-FirstMatch zero from st e = λ at low high. absurd (omega (arith, e, low, high))
  first_match-FirstMatch (suc turns) from st e =
      let h : from ≤ length text = omega (arith, e) in
      tried-OnReturned prog text (FirstMatch prog text from) from st (match_at prog text from st) _
        _ (match_at-Decided prog text from st c h)
        (λ s m.
          OnReturned-then (λ (t : List ℕ). t ≡ clipped text from (some m.end))
            (FirstMatch prog text from) _ _ (whole_text-OnReturned prog text _ from s m refl)
            (λ t q. (from, s.caps, m, q, omega arith, λ p lo lt. absurd (omega (arith, lo, lt)))))
        (λ s fails.
          OnReturned-map (FirstMatch prog text (from + 1)) (FirstMatch prog text from) _
            (first_match-FirstMatch turns (from + 1) s (omega (arith, e)))
            (λ t h. passed_over from t fails h))

  -- For the program of a pattern, search ends with the step limit's error or returns: a
  -- text, which a match at the first position has where any way through the program begins,
  -- or null, and then no way begins anywhere.
  pub search-FirstMatch : OnReturned (FirstMatch prog text 0) (search prog text)
  search-FirstMatch = first_match-FirstMatch (length text + 1) 0 new_state (omega arith)

  find_all_from-Finds :
      (fuel from : ℕ) (st : State)
      → from ≤ length text + 1
      → length text + 2 ≤ fuel + from
      → OnReturned (Finds prog text from) (find_all_from prog text fuel from st)
  unfolding find_all_from
  find_all_from-Finds zero from st high enough = absurd (omega (arith, high, enough))
  find_all_from-Finds (suc fuel) from st high enough =
      while_inside-OnReturned prog text (Finds prog text from) from _ _ past (λ h.
        tried-OnReturned prog text (Finds prog text from) from st (match_at prog text from st) _ _
          (match_at-Decided prog text from st c h)
          (λ s m.
            let (on, inside) = after_match_lt from m.end (length text) m.forwards m.inside in
            spanned-OnReturned prog text (Finds prog text from) from s _ m (
              OnReturned-then (λ (t : List ℕ). t ≡ clipped text from (some m.end))
                (Finds prog text from) _ _ (substr-OnReturned _ text from (some m.end) h refl)
                (λ t e.
                  OnReturned-then (Finds prog text (after_match from m.end)) (Finds prog text from)
                    _ _
                    (find_all_from-Finds fuel (after_match from m.end) s inside
                      (omega (arith, enough, on)))
                    (λ ts w.
                      subst (λ (u : List ℕ). Finds prog text from (u ∷ ts)) (sym e) (found m w)))))
          (λ s fails.
            OnReturned-map (Finds prog text (from + 1)) (Finds prog text from) _
              (find_all_from-Finds fuel (from + 1) s (omega (arith, h)) (omega (arith, enough)))
              (λ ts w. passed h fails w)))

  -- For the program of a pattern, find_all ends with the step limit's error or returns the
  -- texts of matches in order: each begins at the first position, from the end of the match
  -- before it on and behind the next character if that match was empty, at which any way
  -- through the program begins.
  pub find_all-Finds : OnReturned (Finds prog text 0) (find_all prog text)
  find_all-Finds = find_all_from-Finds (length text + 2) 0 new_state (omega arith) (omega arith)

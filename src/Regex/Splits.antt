-- ===== src/Regex/Splits.antt =====
-- `split` of src/modules/regex.hpp.
use lovax.Base.{
  ℕ, zero, suc, ◌+◌, ◌-◌, ◌≤◌, ◌<◌, ◌≡◌, refl, sym, ap, ◌∙◌, ◌⊎◌, inl, inr, Bool, true, false,
  Option, none, some, List, [], ◌∷◌, ◌++◌, arith, ltb, length, take, drop,
}
use lovax.Regex.Program.{Prog}
use lovax.Regex.Matcher.{match_at, new_state, State}
use lovax.Regex.Search.{Fails}
use lovax.Regex.Fragment.{}
use lovax.Regex.Decides.{no_caps, match_at-Decided, IsMatch, IsCompiled}
use lovax.Regex.Functions.{and_then, or_broken, substr, split_from, split_text, returned}
use lovax.Regex.Turns.{
  OnReturned, OnReturned-then, substr-OnReturned, tried-OnReturned, while_inside-OnReturned,
  spanned-OnReturned,
}
use mathlib.Core.Path.{subst}
use native.Mathlib.Decide.{ℕ_discrete}

-- A position at which a text is not cut: no match begins there, or the matcher's is empty.
abbrev pub Uncut : Prog → List ℕ → ℕ → Type 0
Uncut prog text p =
    Fails prog text 0 p no_caps ⊎ (f : ℕ → Option ℕ) × (m : IsMatch prog text p f) × (m.end ≡ p)

abbrev pub UncutFrom : Prog → List ℕ → ℕ → ℕ → Type 0
UncutFrom prog text p n = (q : ℕ) → p ≤ q → q < n → Uncut prog text q

-- The pieces of a text from a position on: it is cut at the first match that is not empty.
pub data Splits (prog : Prog) (text : List ℕ) : ℕ → List (List ℕ) → Type 0 where
  uncut :
      {p : ℕ}
      → p ≤ length text
      → UncutFrom prog text p (length text + 1)
      → Splits prog text p (drop p text ∷ [])
  cut :
      {p a : ℕ} {f : ℕ → Option ℕ} {ts : List (List ℕ)} (m : IsMatch prog text a f)
      → p ≤ a
      → a < m.end
      → UncutFrom prog text p a
      → Splits prog text m.end ts
      → Splits prog text p (take (a - p) (drop p text) ∷ ts)

pub drop_nil : (n : ℕ) → drop {A = ℕ} n [] ≡ []
drop_nil zero = refl
drop_nil (suc n) = refl

take_append_drop : (n : ℕ) (xs : List ℕ) → take n xs ++ drop n xs ≡ xs
take_append_drop zero xs = refl
take_append_drop (suc n) [] = refl
take_append_drop (suc n) (x ∷ xs) = ap (λ (r : List ℕ). x ∷ r) (take_append_drop n xs)

drop-drop : (m n : ℕ) (xs : List ℕ) → drop m (drop n xs) ≡ drop (n + m) xs
drop-drop m zero xs = let e : m ≡ 0 + m = omega arith in ap (λ (k : ℕ). drop k xs) e
drop-drop m (suc n) [] = drop_nil m ∙ sym (drop_nil (suc n + m))
drop-drop m (suc n) (x ∷ xs) =
    let e : suc (n + m) ≡ suc n + m = omega arith in
    drop-drop m n xs ∙ ap (λ (k : ℕ). drop k (x ∷ xs)) e

pub take-drop :
    (text : List ℕ) (a b : ℕ) → a ≤ b → take (b - a) (drop a text) ++ drop b text ≡ drop a text
take-drop text a b h =
    let e : b ≡ a + (b - a) = omega (arith, h) in
    ap (λ (r : List ℕ). take (b - a) (drop a text) ++ r)
      (ap (λ (k : ℕ). drop k text) e ∙ sym (drop-drop (b - a) a text))
    ∙ take_append_drop (b - a) (drop a text)

module _ (prog : Prog) (text : List ℕ) where
  module _ (c : IsCompiled prog) where
    widen-Uncut :
        (p from : ℕ)
        → UncutFrom prog text p from
        → Uncut prog text from
        → UncutFrom prog text p (from + 1)
    widen-Uncut p from u here q low lt = elim (ℕ_discrete from q) [
      | yes same ↦ subst (λ (x : ℕ). Uncut prog text x) same here
      | no n ↦ u q low (omega (arith, lt, n))
    ]

    split_from-Splits :
        (fuel p from : ℕ) (st : State)
        → p ≤ from
        → p ≤ length text
        → from ≤ length text + 1
        → length text + 2 ≤ fuel + from
        → UncutFrom prog text p from
        → OnReturned (Splits prog text p) (split_from prog text fuel p from st)
    unfolding split_from
    split_from-Splits zero p from st low hp high enough u = absurd (omega (arith, high, enough))
    split_from-Splits (suc fuel) p from st low hp high enough u =
        while_inside-OnReturned prog text (Splits prog text p) from _ _
          (λ over.
            OnReturned-then (λ (t : List ℕ). t ≡ drop p text) (Splits prog text p) _ _
              (substr-OnReturned _ text p none hp refl)
              (λ t e.
                subst (λ (x : List ℕ). Splits prog text p (x ∷ [])) (sym e)
                  (uncut hp (λ q lo lt. u q lo (omega (arith, lt, over))))))
          (λ h.
            tried-OnReturned prog text (Splits prog text p) from st (match_at prog text from st) _ _
              (match_at-Decided prog text from st c h)
              (λ s m. spanned-OnReturned prog text (Splits prog text p) from s _ m (
                chosen h s m (ltb from m.end) refl
                  (λ e.
                    split_from-Splits fuel m.end m.end s (omega arith) m.inside
                      (omega (arith, m.inside)) (omega (arith, enough, e))
                      (λ q lo lt. absurd (omega (arith, lo, lt))))
                  (λ e.
                    split_from-Splits fuel p (from + 1) s (omega (arith, low)) hp (omega (arith, h))
                      (omega (arith, enough)) (widen-Uncut p from u (inr (s.caps, m, e))))))
              (λ s fails.
                split_from-Splits fuel p (from + 1) s (omega (arith, low)) hp (omega (arith, h))
                  (omega (arith, enough)) (widen-Uncut p from u (inl fails))))
      where
        chosen :
            from ≤ length text
            → (s : State) (m : IsMatch prog text from s.caps) → (longer : Bool)
            → ltb from m.end ≡ longer
            → (from < m.end
                → OnReturned (Splits prog text m.end) (split_from prog text fuel m.end m.end s))
            → (m.end ≡ from
                → OnReturned (Splits prog text p) (split_from prog text fuel p (from + 1) s))
            → OnReturned (Splits prog text p) (elim longer [
              | true ↦ and_then (or_broken (substr text p (some from))) (λ t.
                  and_then (split_from prog text fuel m.end m.end s) (λ ts. returned (t ∷ ts)))
              | false ↦ split_from prog text fuel p (from + 1) s
            ])
        chosen h s m true e onward same =
            let lt : from < m.end = ground (arith, e) in
            let kept : ltb from p ≡ false = ground (arith, low) in
            OnReturned-then (λ (t : List ℕ). t ≡ take (from - p) (drop p text)) (Splits prog text p)
              _ _ (substr-OnReturned _ text p (some from) hp (rw kept refl))
              (λ t q.
                OnReturned-then (Splits prog text m.end) (Splits prog text p) _ _ (onward lt)
                  (λ ts w.
                    subst (λ (x : List ℕ). Splits prog text p (x ∷ ts)) (sym q) (cut m low lt u w)))
        chosen h s m false e onward same = same (ground (arith, e, m.forwards))

    -- For the program of a pattern, split ends with the step limit's error or returns the
    -- pieces that are left when the text is cut, from left to right, at each first match
    -- that is not empty: at the positions that it passes over, no way through the program
    -- begins or the match is empty.
    pub split-Splits : OnReturned (Splits prog text 0) (split_text prog text)
    split-Splits =
        split_from-Splits (length text + 2) 0 0 new_state (omega arith) (omega arith) (omega arith)
          (omega arith) (λ q lo lt. absurd (omega (arith, lt)))

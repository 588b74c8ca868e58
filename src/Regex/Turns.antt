-- ===== src/Regex/Turns.antt =====
-- The turns of the loops over a text in src/modules/regex.hpp.
use lovax.Base.{
  ℕ, ◌+◌, ◌≤◌, ◌<◌, ◌≡◌, refl, inl, inr, Bool, true, false, Option, none, some, List, arith, ltb,
  if◌then◌else◌, Bool-cases, length,
}
use lovax.Regex.Program.{Prog}
use lovax.Regex.Matcher.{Answer, State}
use lovax.Regex.Search.{Fails}
use lovax.Regex.Paths.{}
use lovax.Regex.Decides.{no_caps, Decided, IsMatch}
use lovax.Regex.Functions.{
  and_then, or_broken, clipped, substr, spanned, while_inside, tried, whole_text, Result, returned,
  step_limit, broken,
}

-- The result is not broken, and what is returned has a property.
abbrev pub OnReturned {ℓ} : {A : Type ℓ} → (A → Type 0) → Result A → Type 0
OnReturned P (returned a) = P a
OnReturned P step_limit = Unit
OnReturned P broken = ⊥

pub OnReturned-then {ℓ κ} :
    {A : Type ℓ} {B : Type κ} (P : A → Type 0) (Q : B → Type 0) (r : Result A) (f : A → Result B)
    → OnReturned P r
    → ((a : A) → P a → OnReturned Q (f a))
    → OnReturned Q (and_then r f)
OnReturned-then P Q (returned a) f p h = h a p
OnReturned-then P Q step_limit f p h = tt
OnReturned-then P Q broken f p h = absurd p

pub OnReturned-map {ℓ} :
    {A : Type ℓ} (P Q : A → Type 0) (r : Result A)
    → OnReturned P r
    → ((a : A) → P a → Q a)
    → OnReturned Q r
OnReturned-map P Q (returned a) p h = h a p
OnReturned-map P Q step_limit p h = tt
OnReturned-map P Q broken p h = absurd p

pub substr-OnReturned :
    (P : List ℕ → Type 0) (text : List ℕ) (a : ℕ) (b : Option ℕ)
    → a ≤ length text
    → P (clipped text a b)
    → OnReturned P (or_broken (substr text a b))
substr-OnReturned P text a b h p = let y : ltb (length text) a ≡ false = ground (arith, h) in rw y p

-- Where the next turn begins.
abbrev pub after_match : ℕ → ℕ → ℕ
after_match a b = if ltb a b then b else b + 1

pub after_match_lt : (a b n : ℕ) → a ≤ b → b ≤ n → (a < after_match a b) × (after_match a b ≤ n + 1)
after_match_lt a b n low high = elim (Bool-cases (ltb a b)) [
  | inl y ↦ rw y (ground (arith, y), omega (arith, high))
  | inr m ↦ rw m (omega (arith, low), omega (arith, high))
]

module _ (prog : Prog) (text : List ℕ) where
  pub tried-OnReturned {ℓ} :
      {A : Type ℓ} (P : A → Type 0) (from : ℕ) (st : State) (a : Answer)
      (matched unmatched : State → Result A)
      → Decided prog text from st a
      → ((s : State) → IsMatch prog text from s.caps → OnReturned P (matched s))
      → ((s : State) → Fails prog text 0 from no_caps → OnReturned P (unmatched s))
      → OnReturned P (tried a matched unmatched)
  tried-OnReturned P from st none matched unmatched d m u = absurd d
  tried-OnReturned P from st (some (true, s)) matched unmatched (d, more) m u = m s d
  tried-OnReturned P from st (some (false, s)) matched unmatched (d, more) m u =
      limited s.budget_hit (λ h. u s (d h))
    where
      limited :
          (hit : Bool)
          → (hit ≡ false → OnReturned P (unmatched s))
          → OnReturned P (if hit then step_limit else unmatched s)
      limited true h = tt
      limited false h = h refl

  pub while_inside-OnReturned {ℓ} :
      {A : Type ℓ} (P : A → Type 0) (from : ℕ) (end : Result A) (turn : Unit → Result A)
      → (length text < from → OnReturned P end)
      → (from ≤ length text → OnReturned P (turn tt))
      → OnReturned P (while_inside (ltb (length text) from) end turn)
  while_inside-OnReturned P from end turn over on = elim (Bool-cases (ltb (length text) from)) [
    | inl y ↦ rw y (over (ground (arith, y)))
    | inr n ↦ rw n (on (ground (arith, n)))
  ]

  pub spanned-OnReturned {ℓ} :
      {A : Type ℓ} (P : A → Type 0) (from : ℕ) (s : State) (f : ℕ → ℕ → Result A)
      (m : IsMatch prog text from s.caps)
      → OnReturned P (f from m.end)
      → OnReturned P (spanned s f)
  spanned-OnReturned P from s f m h = rw (m.begins_at, m.ends_at) h

  pub whole_text-OnReturned :
      (P : List ℕ → Type 0) (from : ℕ) (s : State) (m : IsMatch prog text from s.caps)
      → P (clipped text from (some m.end))
      → OnReturned P (whole_text text s)
  whole_text-OnReturned P from s m p =
      spanned-OnReturned P from s _ m
        (substr-OnReturned P text from (some m.end) (omega (arith, m.forwards, m.inside)) p)

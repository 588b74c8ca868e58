-- ===== src/Regex/Cache.antt =====
-- `rxCompile` of src/modules/regex.hpp: the cache of compiled patterns. The source's map is an
-- association list here, and its state goes in and out.
use lovax.Base.Text.{bytes_equal, bytes_equal_sound}
use lovax.Base.{
  ℕ, ◌≤◌, ◌≡◌, refl, sym, ap, ◌∙◌, inl, inr, Bool, true, false, Option, none, some, List, [], ◌∷◌,
  arith, ltb, if◌then◌else◌, Bool-cases, some_injective, length,
}
use lovax.Regex.Compiler.{compile, Outcome}

abbrev pub Cache : Type 0
Cache = List (List ℕ × Outcome)

-- `cache.find(pattern)`
abbrev pub find : List ℕ → Cache → Option Outcome
find pat [] = none
find pat ((p, o) ∷ cache) = if bytes_equal pat p then some o else find pat cache

abbrev pub added : Cache → List ℕ → Option Outcome → Cache × Outcome
added cache pat (some o) = (cache, o)
added cache pat none =
    ((pat, compile pat) ∷ (if ltb 256 (length cache) then [] else cache), compile pat)

unfoldable pub rx_compile : Cache → List ℕ → Cache × Outcome
rx_compile cache pat = added cache pat (find pat cache)

-- Each entry is what its pattern compiles to.
abbrev pub Holds : Cache → Type 0
Holds [] = Unit
Holds ((p, o) ∷ cache) = (o ≡ compile p) × Holds cache

find-Holds :
    (pat : List ℕ) (cache : Cache) (o : Outcome)
    → Holds cache
    → find pat cache ≡ some o
    → o ≡ compile pat
find-Holds pat [] o h e = absurd (cc)
find-Holds pat ((p, found) ∷ cache) o (same, h) e = elim (Bool-cases (bytes_equal pat p)) [
  | inl y ↦
      some_injective (sym e ∙ ap (λ (b : Bool). if b then some found else find pat cache) y)
      ∙ same
      ∙ ap compile (sym (bytes_equal_sound pat p y))
  | inr n ↦
      find-Holds pat cache o h
        (sym (ap (λ (b : Bool). if b then some found else find pat cache) n) ∙ e)
]

-- A cache that holds what its patterns compile to, and its bound.
pub record IsCache (cache : Cache) : Type 0 where
  pub holds : Holds cache
  pub bound : length cache ≤ 257

-- On a cache whose entries are what their patterns compile to, and of at most 257 of them,
-- rxCompile gives what the pattern compiles to, and the cache after it is such a cache
-- again.
pub rx_compile-compile :
    (cache : Cache) (pat : List ℕ)
    → IsCache cache
    → ((rx_compile cache pat).1 ≡ compile pat) × IsCache ((rx_compile cache pat).0)
unfolding rx_compile
rx_compile-compile cache pat c = go (find pat cache) refl
  where
    kept :
        (full : Bool)
        → ltb 256 (length cache) ≡ full
        → IsCache ((pat, compile pat) ∷ (if full then [] else cache))
    kept true e = record { holds = (refl, tt); bound = omega arith }
    kept false e = record { holds = (refl, c.holds); bound = ground (arith, e) }

    go :
        (o : Option Outcome)
        → find pat cache ≡ o
        → ((added cache pat o).1 ≡ compile pat) × IsCache ((added cache pat o).0)
    go none e = (refl, kept (ltb 256 (length cache)) refl)
    go (some o) e = (find-Holds pat cache o c.holds e, c)

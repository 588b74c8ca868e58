-- ===== src/Regex/Opened.antt =====
-- A body behind a SPLIT that waits for its targets, in src/modules/regex.hpp.
use lovax.Base.{
  ℕ, zero, suc, ◌+◌, ◌≡◌, sym, ap, ◌∙◌, inl, true, some, List, [], ◌∷◌, ◌++◌, arith, ◌==◌, length,
  get_elem?,
}
use lovax.Base.Members.{contains, or_left, or_right}
use lovax.Regex.Program.{Inst}
use lovax.Regex.Ends.{is_split}
use lovax.Regex.Repeat.{append_body, placeholder}
use lovax.Regex.Fragment.{
  get_elem?-append_right, Keeps-append, append-IsFragment, widen-IsFragment, IsFragment, Keeps,
}
use lovax.Regex.Patches.{Below-append, body, append_body-Grows, Grows}

module _ (start classes : ℕ) (origin : List Inst) (whole : IsFragment [] start classes origin) where
  -- A SPLIT that waits for its targets, and a copy of the body after it.
  abbrev pub opened : List Inst → List Inst
  opened code = append_body start (body start classes origin whole) (code ++ placeholder ∷ [])

  pub opened-Grows :
      (open_at : List ℕ) (code : List Inst)
      → Grows open_at start classes origin code
      → Grows (length code ∷ open_at) start classes origin (opened code)
        × Keeps code (opened code)
        × (is_split (get_elem? (opened code) (length code)) ≡ true)
  opened-Grows open_at code g =
      let more = code ++ placeholder ∷ [] in
      let widened =
        widen-IsFragment open_at (length code ∷ open_at) start classes code
          (λ p h. or_right (p == length code) (contains p open_at) h) g.fragment in
      let fragment =
        append-IsFragment (length code ∷ open_at) start classes code (placeholder ∷ []) widened
          (λ j i e. inl (first j i e)) in
      let grown =
        append_body-Grows start classes origin whole (length code ∷ open_at) more (record {
          fragment = fragment;
          below = λ pc lt.
              Below-append start code (placeholder ∷ []) g.fragment.inside pc lt ∙ g.below pc lt;
        }) in
      let here : length code + 0 ≡ length code = omega arith in
      let at_split : is_split (get_elem? more (length code)) ≡ true =
        ap (λ (n : ℕ). is_split (get_elem? more n)) (sym here)
        ∙ ap is_split (get_elem?-append_right code (placeholder ∷ []) 0) in
      (
        grown.0,
        keeps_both code more _ (Keeps-append code (placeholder ∷ [])) grown.1,
        grown.1.splits (length code) at_split,
      )
    where
      first :
          (j : ℕ) (i : Inst)
          → get_elem? (placeholder ∷ []) j ≡ some i
          → contains (length code + j) (length code ∷ open_at) ≡ true
      first zero i e = or_left (length code + 0 == length code) _ (ground arith)
      first (suc j) i e = absurd (cc)

      keeps_both : (a b c : List Inst) → Keeps a b → Keeps b c → Keeps a c
      keeps_both a b c x y = record {
        longer = omega (arith, x.longer, y.longer);
        splits = λ p h. y.splits p (x.splits p h);
      }

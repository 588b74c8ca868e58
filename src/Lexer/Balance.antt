-- ===== src/Lexer/Balance.antt =====
-- The invariant of src/lexer/lexer.hpp between two turns of `nextToken`, and what the queue and
-- the indentation stack contribute to it.
use lovax.Base.{
  ℕ, ◌+◌, ◌*◌, ◌≤◌, ◌<◌, ◌≡◌, refl, sym, ap, ◌∙◌, inl, inr, Bool, true, false, Option, some, List,
  [], ◌∷◌, ◌++◌, arith, if◌then◌else◌, Option-cases, ◌>>=◌, some_injective, length,
}
use lovax.Lexer.Tokens.{Place, Token, end_of_file}
use lovax.Lexer.Cursor.{tail, Cursor}
use lovax.Lexer.Layout.{
  layout_token, close_all, bottom, end_of_input, Lexer, Outcome, emit, again, undefined,
}
use lovax.Lexer.Scan.{is_end}
use lovax.Lexer.Depth.{
  next_depth, walk_depth, is_plain, next_depth-plain, none_ne_some, walk_depth-append,
}

-- The stack's last level is 0, and the queue leads from the depth of the tokens emitted so far to
-- the number of open blocks.
pub record IsLevel (d : ℕ) (l : Lexer) : Type 0 where
  pub grounded : bottom l.indent_stack ≡ 0 ∷ []
  pub level : walk_depth d l.queue ≡ some (length (tail l.indent_stack))

abbrev pub token_weight : Token → ℕ
token_weight t = if is_end t.type then 0 else 2

abbrev pub queue_weight : List Token → ℕ
queue_weight [] = 0
queue_weight (t ∷ q) = token_weight t + queue_weight q

abbrev pub idle : List Token → ℕ
idle [] = 1
idle (t ∷ q) = 0

-- What a turn makes smaller, until the end of the file is emitted.
abbrev pub weight : Lexer → ℕ
weight l =
    3 * length l.cursor.rest + 2 * length l.indent_stack + queue_weight l.queue + idle l.queue

pub record Emits (d : ℕ) (l : Lexer) (t : Token) (m : Lexer) : Type 0 where
  pub after : ℕ
  pub step : next_depth t.type d ≡ some after
  pub level : IsLevel after m
  pub lighter : is_end t.type ≡ false → weight m < weight l

-- A turn keeps the invariant and makes the weight smaller.
abbrev pub Goes : ℕ → Lexer → Outcome → Type 0
Goes d l (emit t m) = Emits d l t m
Goes d l (again m) = IsLevel d m × (weight m < weight l)
Goes d l undefined = ⊥

pub Goes-le : (d : ℕ) (l m : Lexer) (o : Outcome) → weight m ≤ weight l → Goes d m o → Goes d l o
Goes-le d l m (emit t n) h g = record {
  after = g.after;
  step = g.step;
  level = g.level;
  lighter = λ e. omega (arith, h, g.lighter e);
}
Goes-le d l m (again n) h g = (g.0, omega (arith, h, g.1))
Goes-le d l m undefined h g = g

-- A lexer without queued tokens.
abbrev pub lexer_at : Cursor → List ℕ → Bool → ℕ → Lexer
lexer_at c s b n = record {
  cursor = c;
  indent_stack = s;
  queue = [];
  at_line_start = b;
  bracket_depth = n;
}

pub Emits-plain :
    (d : ℕ) (l : Lexer) (t : Token) (c : Cursor) (b : Bool) (n : ℕ)
    → IsLevel d l
    → is_plain t.type ≡ true
    → length c.rest < length l.cursor.rest
    → Emits d l t (record l { cursor = c; at_line_start = b; bracket_depth = n })
Emits-plain d l t c b n inv p h = record {
  after = d;
  step = next_depth-plain t.type d p;
  level = record { grounded = inv.grounded; level = inv.level };
  lighter = λ e. omega (arith, h);
}

pub again_forward :
    (d : ℕ) (l : Lexer) (c : Cursor) (b : Bool)
    → IsLevel d l
    → length c.rest < length l.cursor.rest
    → Goes d l (again (record l { cursor = c; at_line_start = b }))
again_forward d l c b inv h =
    (record { grounded = inv.grounded; level = inv.level }, omega (arith, h))

idle_le : (q : List Token) → idle q ≤ 1
idle_le [] = omega arith
idle_le (t ∷ q) = omega arith

popped :
    (q : List Token) (a r s w : ℕ)
    → 3 * r + 2 * s + (a + queue_weight q) ≤ w
    → a ≡ 2
    → 3 * r + 2 * s + queue_weight q + idle q < w
popped q a r s w h e = omega (arith, idle_le q)

walk_depth-uncons :
    (t : Token) (q : List Token) (d e : ℕ)
    → walk_depth d (t ∷ q) ≡ some e
    → (x : ℕ) × (next_depth t.type d ≡ some x) × (walk_depth x q ≡ some e)
walk_depth-uncons t q d e h = elim (Option-cases (next_depth t.type d)) [
  | inl n ↦ absurd (none_ne_some (sym (ap (λ (o : Option ℕ). o >>= λ x. walk_depth x q) n) ∙ h))
  | inr (x, y) ↦ (x, y, sym (ap (λ (o : Option ℕ). o >>= λ x. walk_depth x q) y) ∙ h)
]

-- A token from the front of the queue.
pub pop-Emits :
    (d : ℕ) (l m : Lexer) (t : Token) (q : List Token)
    → IsLevel d (record m { queue = t ∷ q })
    → 3 * length m.cursor.rest + 2 * length m.indent_stack + queue_weight (t ∷ q) ≤ weight l
    → Emits d l t (record m { queue = q })
pop-Emits d l m t q inv h =
    let (x, step, level) = walk_depth-uncons t q d _ inv.level in
    record {
      after = x;
      step = step;
      level = record { grounded = inv.grounded; level = level };
      lighter = λ e.
          popped q (if is_end t.type then 0 else 2) _ _ _ h
            (ap (λ (b : Bool). if b then 0 else 2) e);
    }

close_all-walk :
    (x : ℕ) (s : List ℕ) (at : Place) → walk_depth (length s) (close_all (x ∷ s) at) ≡ some 0
unfolding close_all
close_all-walk x [] at = refl
close_all-walk x (y ∷ s) at = close_all-walk y s at

close_all-weight :
    (x : ℕ) (s : List ℕ) (at : Place)
    → queue_weight (close_all (x ∷ s) at ++ layout_token end_of_file at ∷ []) ≡ 2 * length s
unfolding close_all
close_all-weight x [] at = refl
close_all-weight x (y ∷ s) at = omega (arith, close_all-weight y s at)

idle-append : (ts : List Token) (t : Token) → idle (ts ++ t ∷ []) ≡ 0
idle-append [] t = refl
idle-append (u ∷ ts) t = refl

pub end_of_input-Goes :
    (d : ℕ) (c : Cursor) (s : List ℕ) (b : Bool) (n : ℕ)
    → IsLevel d (lexer_at c s b n)
    → Goes d (lexer_at c s b n) (again (end_of_input (lexer_at c s b n)))
unfolding end_of_input
end_of_input-Goes d c [] b n inv = absurd (cc (inv.grounded))
end_of_input-Goes d c (x ∷ s) b n inv =
    let ends = close_all (x ∷ s) c.place in
    let eof = layout_token end_of_file c.place in
    (
      record {
        grounded = ap bottom inv.grounded;
        level =
            walk_depth-append d 0 ends (eof ∷ []) (
              ap (λ (k : ℕ). walk_depth k ends) (some_injective inv.level)
              ∙ close_all-walk x s c.place)
            ∙ ap (λ (t : List ℕ). some (length (tail t))) (sym inv.grounded);
      },
      omega (arith, close_all-weight x s c.place, idle-append ends eof, ap length inv.grounded),
    )

-- ===== src/Regex/Paths.antt =====
-- What the instructions of src/modules/regex.hpp mean: the ways through a program and a text.
use lovax.Base.{
  ℕ, ◌+◌, ◌≡◌, refl, sym, ◌∙◌, ◌⊎◌, inl, inr, true, Option, some, List, length, get_elem?,
}
use lovax.Regex.Program.{
  class_matches, utf8_char_len, CharClass, Prog, Inst, char, any, class, split, jmp, save, bol, eol,
  match,
}
use lovax.Regex.Matcher.{set_cap, ends_inside}
use mathlib.Core.Path.{subst}

abbrev pub Caps : Type 0
Caps = ℕ → Option ℕ

-- A way from an instruction and a position of the text to a MATCH, with the captures at its
-- beginning and its end.
pub data Way (prog : Prog) (text : List ℕ) : ℕ → ℕ → Caps → Caps → Type 0 where
  at_char :
      {pc sp c : ℕ} {k f : Caps}
      → get_elem? prog.code pc ≡ some (char c)
      → get_elem? text sp ≡ some c
      → Way prog text (pc + 1) (sp + 1) k f
      → Way prog text pc sp k f
  at_any :
      {pc sp c : ℕ} {k f : Caps}
      → get_elem? prog.code pc ≡ some any
      → get_elem? text sp ≡ some c
      → ends_inside prog text sp c ≡ true
      → Way prog text (pc + 1) (sp + utf8_char_len c) k f
      → Way prog text pc sp k f
  at_class :
      {pc sp i c : ℕ} {cc : CharClass} {k f : Caps}
      → get_elem? prog.code pc ≡ some (class i)
      → get_elem? prog.classes i ≡ some cc
      → get_elem? text sp ≡ some c
      → class_matches cc c ≡ true
      → Way prog text (pc + 1) (sp + 1) k f
      → Way prog text pc sp k f
  at_first :
      {pc sp x y : ℕ} {k f : Caps}
      → get_elem? prog.code pc ≡ some (split x y)
      → Way prog text x sp k f
      → Way prog text pc sp k f
  at_second :
      {pc sp x y : ℕ} {k f : Caps}
      → get_elem? prog.code pc ≡ some (split x y)
      → Way prog text y sp k f
      → Way prog text pc sp k f
  at_jmp :
      {pc sp x : ℕ} {k f : Caps}
      → get_elem? prog.code pc ≡ some (jmp x)
      → Way prog text x sp k f
      → Way prog text pc sp k f
  at_save :
      {pc sp x : ℕ} {k f : Caps}
      → get_elem? prog.code pc ≡ some (save x)
      → Way prog text (pc + 1) sp (set_cap k x (some sp)) f
      → Way prog text pc sp k f
  at_bol :
      {pc sp : ℕ} {k f : Caps}
      → get_elem? prog.code pc ≡ some bol
      → sp ≡ 0
      → Way prog text (pc + 1) sp k f
      → Way prog text pc sp k f
  at_eol :
      {pc sp : ℕ} {k f : Caps}
      → get_elem? prog.code pc ≡ some eol
      → sp ≡ length text
      → Way prog text (pc + 1) sp k f
      → Way prog text pc sp k f
  at_match : {pc sp : ℕ} {k : Caps} → get_elem? prog.code pc ≡ some match → Way prog text pc sp k k

module _ (prog : Prog) (text : List ℕ) where
  -- How a way goes on that begins at an instruction.
  abbrev pub Onward : Inst → ℕ → ℕ → Caps → Caps → Type 0
  Onward (char c) pc sp k f = (get_elem? text sp ≡ some c) × Way prog text (pc + 1) (sp + 1) k f
  Onward any pc sp k f =
      (c : ℕ) × (get_elem? text sp ≡ some c)
      × (ends_inside prog text sp c ≡ true)
      × Way prog text (pc + 1) (sp + utf8_char_len c) k f
  Onward (class i) pc sp k f =
      (cc : CharClass) × (c : ℕ) × (get_elem? prog.classes i ≡ some cc)
      × (get_elem? text sp ≡ some c)
      × (class_matches cc c ≡ true)
      × Way prog text (pc + 1) (sp + 1) k f
  Onward (split x y) pc sp k f = Way prog text x sp k f ⊎ Way prog text y sp k f
  Onward (jmp x) pc sp k f = Way prog text x sp k f
  Onward (save x) pc sp k f = Way prog text (pc + 1) sp (set_cap k x (some sp)) f
  Onward bol pc sp k f = (sp ≡ 0) × Way prog text (pc + 1) sp k f
  Onward eol pc sp k f = (sp ≡ length text) × Way prog text (pc + 1) sp k f
  Onward match pc sp k f = f ≡ k

  same_inst :
      (pc sp : ℕ) (k f : Caps) (a b : Inst)
      → get_elem? prog.code pc ≡ some a
      → get_elem? prog.code pc ≡ some b
      → Onward a pc sp k f
      → Onward b pc sp k f
  same_inst pc sp k f a b ea eb o =
      subst (λ (i : Inst). Onward i pc sp k f) (inst_injective (sym ea ∙ eb)) o
    where
      inst_injective : some a ≡ some b → a ≡ b
      inst_injective h = cc

  pub Way-Onward :
      (pc sp : ℕ) (k f : Caps) (i : Inst)
      → get_elem? prog.code pc ≡ some i
      → Way prog text pc sp k f
      → Onward i pc sp k f
  Way-Onward pc sp k f i e (at_char {c} h t w) = same_inst pc sp k f (char c) i h e (t, w)
  Way-Onward pc sp k f i e (at_any {c} h t n w) = same_inst pc sp k f any i h e (c, t, n, w)
  Way-Onward pc sp k f i e (at_class {i = j} {c} {cc} h g t m w) =
      same_inst pc sp k f (class j) i h e (cc, c, g, t, m, w)
  Way-Onward pc sp k f i e (at_first {x} {y} h w) = same_inst pc sp k f (split x y) i h e (inl w)
  Way-Onward pc sp k f i e (at_second {x} {y} h w) = same_inst pc sp k f (split x y) i h e (inr w)
  Way-Onward pc sp k f i e (at_jmp {x} h w) = same_inst pc sp k f (jmp x) i h e w
  Way-Onward pc sp k f i e (at_save {x} h w) = same_inst pc sp k f (save x) i h e w
  Way-Onward pc sp k f i e (at_bol h z w) = same_inst pc sp k f bol i h e (z, w)
  Way-Onward pc sp k f i e (at_eol h z w) = same_inst pc sp k f eol i h e (z, w)
  Way-Onward pc sp k f i e (at_match h) = same_inst pc sp k f match i h e refl

-- ===== src/Regex/Pieces.antt =====
-- Groups and pieces in the compiler of src/modules/regex.hpp.
use lovax.Base.{
  ℕ, ◌+◌, ◌*◌, ◌≤◌, ◌<◌, ◌≡◌, refl, ap, inl, inr, Bool, true, false, ◌&&◌, ◌||◌, none, some, List,
  [], ◌∷◌, arith, leb, ◌==◌, if◌then◌else◌, Bool-cases, length,
}
use lovax.Regex.Program.{max_groups, char, any, save, bol, eol}
use lovax.Regex.Classes.{begins, tail, read_class, misplaced, ClassResult, class_done, class_failed}
use lovax.Regex.Fragment.{}
use lovax.Regex.Repeated.{}
use lovax.Regex.Shorter.{length-tail, Leaves, read_class-Leaves}
use lovax.Regex.Compiler.{
  ◌>>>◌, emit, quantify, close_group, group, with_class, escape_atom, atom_from, atom, piece,
  Compiler, Outcome, done, failed, no_fuel,
}
use lovax.Regex.Parsed.{
  Counts, OnDone, OnDone-bind, Parsed-then, Parsed-again, empty-IsFragment, append-Parsed, Parsed,
}
use lovax.Regex.Atoms.{
  ParsesAlternatives, quantify-Parsed, emitted-Parsed, class-Parsed, escape-Parsed, shorter-Parsed,
  close_group-Parsed,
}

-- A piece takes at least one character.
abbrev pub Advanced : Compiler → Compiler → Type 0
Advanced s r = Parsed (length s.code) s r × (length r.rest < length s.rest)

module _ (n : ℕ) (parse_alt : Compiler → Outcome) (alt : ParsesAlternatives n parse_alt) where
  group-Parsed :
      (s : Compiler)
      → Counts s.group_count
      → length s.rest < n
      → OnDone (Parsed (length s.code) s) (group parse_alt s)
  unfolding group
  group-Parsed s g h = elim (Bool-cases (begins b'?' s.rest && begins b':' (tail s.rest))) [
    | inl y ↦
        let rest = tail (tail s.rest) in
        let less : length (tail (tail s.rest)) ≤ length s.rest =
          omega (arith, length-tail (tail s.rest), length-tail s.rest) in
        rw y (
          OnDone-bind (Parsed (length s.code) (record s { rest = rest })) (Parsed (length s.code) s)
            _ _ (alt (record s { rest = rest }) g (omega (arith, less, h)))
            (λ t p.
              close_group-Parsed (length s.code) s t none tt
                (shorter-Parsed (length s.code) s t rest less p)))
    | inr no_question ↦ rw no_question (elim (Bool-cases (leb max_groups s.group_count)) [
      | inl y ↦ rw y tt
      | inr m ↦ rw m (capturing (ground (arith, m)))
    ])
  ]
    where
      -- A capturing group has a slot that is still free.
      capturing :
          s.group_count < max_groups
          → OnDone (Parsed (length s.code) s) (
              parse_alt
                (emit (record s { group_count = s.group_count + 1 }) (save (s.group_count * 2)))
              >>> close_group (some s.group_count))
      capturing free =
          let opened_group =
            emit (record s { group_count = s.group_count + 1 }) (save (s.group_count * 2)) in
          let p : Parsed (length s.code) s opened_group =
            append-Parsed (length s.code) s opened_group (save (s.group_count * 2))
              (empty-IsFragment (length s.classes) s.code) refl (omega arith) (omega arith)
              (omega arith, omega (arith, free)) (omega (arith, g), omega (arith, free)) in
          OnDone-bind (Parsed (length opened_group.code) opened_group) (Parsed (length s.code) s) _
            _ (alt opened_group p.groups h)
            (λ t q.
              close_group-Parsed (length s.code) s t (some s.group_count) (g.0, free)
                (Parsed-then (length s.code) s opened_group t p q))

  with_class-Parsed :
      (s : Compiler) (r : ClassResult)
      → Counts s.group_count
      → Leaves (length s.rest) r
      → OnDone (Parsed (length s.code) s) (with_class s r)
  with_class-Parsed s (class_failed e) g h = tt
  with_class-Parsed s (class_done c rest) g h =
      shorter-Parsed (length s.code) s _ rest h (class-Parsed (record s { rest = rest }) g c)

  escape_atom-Parsed :
      (s : Compiler) (rest : List ℕ)
      → Counts s.group_count
      → length rest ≤ length s.rest
      → OnDone (Parsed (length s.code) s) (escape_atom s rest)
  escape_atom-Parsed s [] g h = tt
  escape_atom-Parsed s (e ∷ rest) g h =
      shorter-Parsed (length s.code) s _ rest (omega (arith, h))
        (escape-Parsed (record s { rest = rest }) g e)

  atom_from-Parsed :
      (s : Compiler) (c : ℕ)
      → Counts s.group_count
      → length s.rest < n
      → OnDone (Parsed (length s.code) s) (atom_from parse_alt s c)
  unfolding atom_from
  atom_from-Parsed s c g h =
      which (c == b'(') (c == b'^') (c == b'$') (c == b'.') (c == b'[') (c == b'\\')
        (c == b'*' || c == b'+' || c == b'?' || c == b')')
    where
      which :
          (paren start_of end_of dot bracket backslash quantifier : Bool)
          → OnDone (Parsed (length s.code) s) (
              if paren
              then group parse_alt s
              else if start_of
              then done (emit s bol)
              else if end_of
              then done (emit s eol)
              else if dot
              then done (emit s any)
              else if bracket
              then with_class s (read_class s.rest)
              else if backslash
              then escape_atom s s.rest
              else if quantifier
              then failed (misplaced c)
              else done (emit s (char c)))
      which true b d e f x q = group-Parsed s g h
      which false true d e f x q = emitted-Parsed s g bol tt
      which false false true e f x q = emitted-Parsed s g eol tt
      which false false false true f x q = emitted-Parsed s g any tt
      which false false false false true x q =
          with_class-Parsed s (read_class s.rest) g (read_class-Leaves s.rest)
      which false false false false false true q = escape_atom-Parsed s s.rest g (omega arith)
      which false false false false false false true = tt
      which false false false false false false false = emitted-Parsed s g (char c) tt

  atom-Advanced :
      (s : Compiler) (rest : List ℕ)
      → s.rest ≡ rest
      → Counts s.group_count
      → length rest ≤ n
      → OnDone (Advanced s) (atom parse_alt s rest)
  atom-Advanced s [] e g h = tt
  atom-Advanced s (c ∷ rest) e g h =
      let len = ap length e in
      advanced (omega (arith, len)) _
        (atom_from-Parsed (record s { rest = rest }) c g (omega (arith, h)))
    where
      advanced :
          length rest < length s.rest
          → (o : Outcome) → OnDone (Parsed (length s.code) (record s { rest = rest })) o
          → OnDone (Advanced s) o
      advanced lt no_fuel p = absurd p
      advanced lt (failed error) p = tt
      advanced lt (done r) p =
          (shorter-Parsed (length s.code) s r rest (omega (arith, lt)) p, omega (arith, lt, p.left))

  pub piece-Advanced :
      (s : Compiler)
      → Counts s.group_count
      → length s.rest ≤ n
      → OnDone (Advanced s) (piece parse_alt s)
  unfolding piece
  piece-Advanced s g h =
      OnDone-bind (Advanced s) (Advanced s) _ _ (atom-Advanced s s.rest refl g h) (λ t (p, lt).
        after t p lt (quantify (length s.code) t)
          (quantify-Parsed (length s.code) t p.fragment p.groups))
    where
      after :
          (t : Compiler)
          → Parsed (length s.code) s t
          → length t.rest < length s.rest
          → (o : Outcome) → OnDone (Parsed (length s.code) t) o
          → OnDone (Advanced s) o
      after t p lt no_fuel q = absurd q
      after t p lt (failed error) q = tt
      after t p lt (done r) q = (Parsed-again (length s.code) s t r p q, omega (arith, lt, q.left))

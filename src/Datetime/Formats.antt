-- ===== src/Datetime/Formats.antt =====
-- `parse` of src/modules/datetime.hpp after `format`.
use lovax.Base.{
  ℕ, suc, ◌+◌, ◌-◌, ◌*◌, ◌/◌, ◌%◌, ◌<◌, ◌≡◌, refl, sym, ap, ◌∙◌, Bool, true, false, not, ◌&&◌,
  Option, none, some, List, [], ◌∷◌, ◌++◌, arith, ◌==◌, if◌then◌else◌, ==_iff, ◌>>=◌,
  some_injective, bind_some,
}
use lovax.Base.Int.{ℤ, pos}
use lovax.Datetime.{DateTime}
use lovax.Datetime.Format.{
  decimal, padded, padded_year, directive, format_from, digit_char, read_width, read_int, literal,
  with_part, without_part, read_directive, parse_from, Parts,
}

-- Numbers of two and of four digits.
two_digits : (n : ℕ) → n < 100 → padded 2 n ≡ (b'0' + n / 10 % 10) ∷ (b'0' + n % 10) ∷ []
two_digits n h =
    let e : n / 10 / 10 ≡ 0 = omega (arith, h) in
    ap (λ (k : ℕ). (decimal k k ++ (b'0' + n / 10 % 10) ∷ []) ++ (b'0' + n % 10) ∷ []) e

four_digits :
    (n : ℕ)
    → n < 10000
    → padded 4 n
      ≡ (b'0' + n / 10 / 10 / 10 % 10)
        ∷ (b'0' + n / 10 / 10 % 10)
        ∷ (b'0' + n / 10 % 10)
        ∷ (b'0' + n % 10)
        ∷ []
four_digits n h =
    let e : n / 10 / 10 / 10 / 10 ≡ 0 = omega (arith, h) in
    ap
      (λ (k : ℕ).
        (((decimal k k ++ (b'0' + n / 10 / 10 / 10 % 10) ∷ []) ++ (b'0' + n / 10 / 10 % 10) ∷ [])
          ++ (b'0' + n / 10 % 10) ∷ [])
        ++ (b'0' + n % 10) ∷ [])
      e

digit : (a : ℕ) → a < 10 → digit_char (b'0' + a) ≡ true
digit a h = ground (arith, h)

read_digit :
    (w v a : ℕ) (s : List ℕ)
    → a < 10
    → read_width (suc w) v ((b'0' + a) ∷ s) ≡ read_width w (v * 10 + a) s
read_digit w v a s h =
    let e : b'0' + a - b'0' ≡ a = omega arith in
    ap
      (λ (b : Bool). if b then read_width w (v * 10 + (b'0' + a - b'0')) s else (v, (b'0' + a) ∷ s))
      (digit a h)
    ∙ ap (λ (k : ℕ). read_width w (v * 10 + k) s) e

read_first :
    (w a : ℕ) (s : List ℕ)
    → a < 10
    → read_int (suc w) ((b'0' + a) ∷ s) ≡ some (read_width w (0 * 10 + a) s)
read_first w a s h =
    ap (λ (b : Bool). if b then some (read_width (suc w) 0 ((b'0' + a) ∷ s)) else none) (digit a h)
    ∙ ap some (read_digit w 0 a s h)

read_two : (n : ℕ) (t : List ℕ) → n < 100 → read_int 2 (padded 2 n ++ t) ≡ some (n, t)
read_two n t h =
    let e : (0 * 10 + n / 10 % 10) * 10 + n % 10 ≡ n = omega (arith, h) in
    ap (λ (s : List ℕ). read_int 2 (s ++ t)) (two_digits n h)
    ∙ read_first 1 (n / 10 % 10) ((b'0' + n % 10) ∷ t) (omega arith)
    ∙ ap some (read_digit 0 (0 * 10 + n / 10 % 10) (n % 10) t (omega arith))
    ∙ ap (λ (k : ℕ). some (k, t)) e

read_four : (n : ℕ) (t : List ℕ) → n < 10000 → read_int 4 (padded 4 n ++ t) ≡ some (n, t)
read_four n t h =
    let a = n / 10 / 10 / 10 % 10 in
    let b = n / 10 / 10 % 10 in
    let c = n / 10 % 10 in
    let e : (((0 * 10 + a) * 10 + b) * 10 + c) * 10 + n % 10 ≡ n = omega (arith, h) in
    ap (λ (s : List ℕ). read_int 4 (s ++ t)) (four_digits n h)
    ∙ read_first 3 a ((b'0' + b) ∷ (b'0' + c) ∷ (b'0' + n % 10) ∷ t) (omega arith)
    ∙ ap some (read_digit 2 (0 * 10 + a) b ((b'0' + c) ∷ (b'0' + n % 10) ∷ t) (omega arith))
    ∙ ap some (read_digit 1 ((0 * 10 + a) * 10 + b) c ((b'0' + n % 10) ∷ t) (omega arith))
    ∙ ap some (read_digit 0 (((0 * 10 + a) * 10 + b) * 10 + c) (n % 10) t (omega arith))
    ∙ ap (λ (k : ℕ). some (k, t)) e

-- The fields of a date and time that `parse` reads again.
pub record IsReadable (dt : DateTime) (number : ℕ) : Type 0 where
  pub year : dt.year ≡ pos number
  pub four : number < 10000
  pub month : dt.month < 100
  pub day : dt.day < 100
  pub hour : dt.hour < 100
  pub minute : dt.minute < 100
  pub second : dt.second < 100

module _ (dt : DateTime) (number : ℕ) (w : IsReadable dt number) where
  -- What a directive sets.
  abbrev pub updated : ℕ → Parts → Parts
  updated c p =
      if c == b'Y'
      then record p { y = number }
      else if c == b'm'
      then record p { mo = dt.month }
      else if c == b'd'
      then record p { d = dt.day }
      else if c == b'H'
      then record p { h = dt.hour }
      else if c == b'M'
      then record p { mi = dt.minute }
      else if c == b'S'
      then record p { se = dt.second }
      else p

  read_year : (t : List ℕ) → read_int 4 (padded_year dt.year ++ t) ≡ some (number, t)
  read_year t = ap (λ (y : ℤ). read_int 4 (padded_year y ++ t)) w.year ∙ read_four number t w.four

  directive-read :
      (c : ℕ) (s t : List ℕ) (p : Parts)
      → c == b'w' ≡ false
      → directive dt c ≡ some s
      → read_directive c (s ++ t) p ≡ some (updated c p, t)
  unfolding directive read_directive
  directive-read c s t p not_weekday e =
      which (c == b'Y') (c == b'm') (c == b'd') (c == b'H') (c == b'M') (c == b'S') (c == b'w')
        (c == b'%') not_weekday e
    where
      set :
          (f : ℕ → Parts) (width v : ℕ) (printed : List ℕ)
          → some printed ≡ some s
          → read_int width (printed ++ t) ≡ some (v, t)
          → with_part f (read_int width (s ++ t)) ≡ some (f v, t)
      set f width v printed same r =
          ap (λ (x : List ℕ). with_part f (read_int width (x ++ t))) (sym (some_injective same))
          ∙ ap (with_part f) r

      which :
          (year month day hour minute second weekday percent : Bool)
          → weekday ≡ false
          → (if year
              then some (padded_year dt.year)
              else if month
              then some (padded 2 dt.month)
              else if day
              then some (padded 2 dt.day)
              else if hour
              then some (padded 2 dt.hour)
              else if minute
              then some (padded 2 dt.minute)
              else if second
              then some (padded 2 dt.second)
              else if weekday
              then some (padded 1 dt.weekday)
              else if percent
              then some (b'%' ∷ [])
              else none)
            ≡ some s
          → (if year
              then with_part (λ v. record p { y = v }) (read_int 4 (s ++ t))
              else if month
              then with_part (λ v. record p { mo = v }) (read_int 2 (s ++ t))
              else if day
              then with_part (λ v. record p { d = v }) (read_int 2 (s ++ t))
              else if hour
              then with_part (λ v. record p { h = v }) (read_int 2 (s ++ t))
              else if minute
              then with_part (λ v. record p { mi = v }) (read_int 2 (s ++ t))
              else if second
              then with_part (λ v. record p { se = v }) (read_int 2 (s ++ t))
              else if percent
              then without_part p (literal b'%' (s ++ t))
              else none)
            ≡ some (
              (if year
                  then record p { y = number }
                  else if month
                  then record p { mo = dt.month }
                  else if day
                  then record p { d = dt.day }
                  else if hour
                  then record p { h = dt.hour }
                  else if minute
                  then record p { mi = dt.minute }
                  else if second
                  then record p { se = dt.second }
                  else p),
              t,
            )
      which true mo d h mi se wd pc n e = set (λ v. record p { y = v }) 4 number _ e (read_year t)
      which false true d h mi se wd pc n e =
          set (λ v. record p { mo = v }) 2 dt.month _ e (read_two dt.month t w.month)
      which false false true h mi se wd pc n e =
          set (λ v. record p { d = v }) 2 dt.day _ e (read_two dt.day t w.day)
      which false false false true mi se wd pc n e =
          set (λ v. record p { h = v }) 2 dt.hour _ e (read_two dt.hour t w.hour)
      which false false false false true se wd pc n e =
          set (λ v. record p { mi = v }) 2 dt.minute _ e (read_two dt.minute t w.minute)
      which false false false false false true wd pc n e =
          set (λ v. record p { se = v }) 2 dt.second _ e (read_two dt.second t w.second)
      which false false false false false false true pc n e = absurd (cc)
      which false false false false false false false true n e =
          ap (λ (x : List ℕ). without_part p (literal b'%' (x ++ t))) (sym (some_injective e))
      which false false false false false false false false n e = absurd (cc)

  -- The parts after all directives of a format.
  abbrev pub updated_by : List ℕ → Parts → Parts
  updated_by [] p = p
  updated_by (c ∷ []) p = p
  updated_by (c ∷ e ∷ fmt) p =
      let after = updated_by fmt (updated e p) in
      let plain = updated_by (e ∷ fmt) p in if c == b'%' then after else plain

  -- No directive is `%w`.
  abbrev pub parsable : List ℕ → Bool
  parsable [] = true
  parsable (c ∷ []) = true
  parsable (c ∷ e ∷ fmt) =
      let after = parsable fmt in
      let plain = parsable (e ∷ fmt) in if c == b'%' then not (e == b'w') && after else plain

  read_literal : (c : ℕ) (s : List ℕ) → literal c (c ∷ s) ≡ some s
  read_literal c s = ap (λ (b : Bool). if b then some s else none) ((==_iff c c).1 refl)

  -- If format prints a datetime of the years 0 to 9999 whose other fields have at most two
  -- digits, with a format without %w, then the loop of parse accepts the text with the same
  -- format, gives each variable that a directive names the datetime's field, and leaves the
  -- others as they were.
  pub parse_from-format :
      (fmt text : List ℕ) (p : Parts)
      → parsable fmt ≡ true
      → format_from dt fmt ≡ some text
      → parse_from fmt text p ≡ some (updated_by fmt p)
  unfolding format_from parse_from
  parse_from-format [] text p y e = refl
  parse_from-format (c ∷ []) text p y e =
      ap (λ (s : List ℕ). literal c s >>= λ r. some p) (sym (some_injective e))
      ∙ ap (λ (o : Option (List ℕ)). o >>= λ r. some p) (read_literal c [])
  parse_from-format (c ∷ d ∷ fmt) text p y e =
      turn (c == b'%') y e (λ t u q. parse_from-format fmt t (updated d p) u q)
        (λ t u q. parse_from-format (d ∷ fmt) t p u q)
    where
      turn :
          (percent : Bool)
          → (if percent then not (d == b'w') && parsable fmt else parsable (d ∷ fmt)) ≡ true
          → (if percent
              then directive dt d >>= (λ s. format_from dt fmt >>= λ t. some (s ++ t))
              else format_from dt (d ∷ fmt) >>= λ t. some (c ∷ t))
            ≡ some text
          → ((t : List ℕ)
              → parsable fmt ≡ true
              → format_from dt fmt ≡ some t
              → parse_from fmt t (updated d p) ≡ some (updated_by fmt (updated d p)))
          → ((t : List ℕ)
              → parsable (d ∷ fmt) ≡ true
              → format_from dt (d ∷ fmt) ≡ some t
              → parse_from (d ∷ fmt) t p ≡ some (updated_by (d ∷ fmt) p))
          → (if percent
              then read_directive d text p >>= (λ (q, r). parse_from fmt r q)
              else literal c text >>= (λ r. parse_from (d ∷ fmt) r p))
            ≡ some (if percent then updated_by fmt (updated d p) else updated_by (d ∷ fmt) p)
      turn true y e after plain =
          let (s, es, rest) = bind_some (directive dt d) _ text e in
          let (t, et, same) = bind_some (format_from dt fmt) _ text rest in
          let (not_w, u) = both (d == b'w') (parsable fmt) y in
          ap (λ (x : List ℕ). read_directive d x p >>= (λ (q, r). parse_from fmt r q))
            (sym (some_injective same))
          ∙ ap (λ (o : Option (Parts × List ℕ)). o >>= (λ (q, r). parse_from fmt r q))
              (directive-read d s t p not_w es)
          ∙ after t u et
        where
          both : (a b : Bool) → (not a && b) ≡ true → (a ≡ false) × (b ≡ true)
          both false true y = (refl, refl)
          both false false y = absurd (cc)
          both true b y = absurd (cc)
      turn false y e after plain =
          let (t, et, same) = bind_some (format_from dt (d ∷ fmt)) _ text e in
          ap (λ (x : List ℕ). literal c x >>= (λ r. parse_from (d ∷ fmt) r p))
            (sym (some_injective same))
          ∙ ap (λ (o : Option (List ℕ)). o >>= (λ r. parse_from (d ∷ fmt) r p)) (read_literal c t)
          ∙ plain t y et

-- ===== src/Startup/Cli/Valid.antt =====
-- The options that `parse_cli` returns are in range and fit together.
use nusim.Base.{
  ◌≡◌, refl, subst, inl, inr, Bool, true, false, ◌||◌, Option, none, some, List, [], ◌∷◌, arith,
  if◌then◌else◌, Option-cases, ℤ, pos, ◌≤ℤ◌,
}
use Prim.Native.String.{String}
use text.Mathlib.Text.{◌==◌ as str_eq}
use text.Mathlib.TextEquality.{eq_iff}
use nusim.Double.{Double}
use nusim.Startup.Cli.{
  CliOptions, Outcome, read_game, read_robots, exited, thrown, read_field, read_config_dir,
  read_keyframe, read_rtf, returned, ◌>>=◌, Numbers, Parsed, read_arg, read_args, check_options,
  parse_cli, default_options, out_of_range, max_game_size, max_robots, failure,
}

-- While the arguments are read.
pub record InRange {D : Type 0} (s : Parsed D) : Type 0 where
  pub game_low : pos 0 ≤ℤ s.opts.game
  pub game_high : s.opts.game ≤ℤ pos 11
  pub robots_low : pos 1 ≤ℤ s.opts.robots
  pub robots_high : s.opts.robots ≤ℤ pos 20
  pub given : s.robots_given ≡ false → s.opts.robots ≡ pos 1

-- The options that a program may be started with.
pub record IsValid {D : Type 0} (o : CliOptions D) : Type 0 where
  pub game_low : pos 0 ≤ℤ o.game
  pub game_high : o.game ≤ℤ pos 11
  pub robots_low : pos 1 ≤ℤ o.robots
  pub robots_high : o.robots ≤ℤ pos 20
  pub game_alone : pos 1 ≤ℤ o.game → (o.field ≡ "") × (o.robots ≡ pos 1)
  pub positions : o.on_field_positions ≡ true → pos 1 ≤ℤ o.game

-- What holds of the value, if there is one.
abbrev Holds {ℓ κ} : {A : Type ℓ} → (A → Type κ) → Outcome A → Type κ
Holds P (returned a) = P a
Holds P (exited c) = Unit
Holds P thrown = Unit

Holds-if {ℓ κ} :
    {A : Type ℓ} (P : A → Type κ) (b : Bool) (x y : Outcome A)
    → Holds P x
    → Holds P y
    → Holds P (if b then x else y)
Holds-if P true x y h k = h
Holds-if P false x y h k = k

Holds->>= {ℓ κ} :
    {A B : Type ℓ} (P : A → Type κ) (Q : B → Type κ) (m : Outcome A) (g : A → Outcome B)
    → Holds P m
    → ((a : A) → P a → Holds Q (g a))
    → Holds Q (m >>= g)
Holds->>= P Q (returned a) g h k = k a h
Holds->>= P Q (exited c) g h k = tt
Holds->>= P Q thrown g h k = tt

Holds-returned {ℓ κ} :
    {A : Type ℓ} (P : A → Type κ) (m : Outcome A) (a : A) → Holds P m → m ≡ returned a → P a
Holds-returned P m a h e = subst (Holds P) e h

module _ {D : Type 0} ⦃f : Double D⦄ (nums : Numbers D) where
  abbrev StaysInRange : Parsed D × Bool → Type 0
  StaysInRange r = InRange r.0

  -- The state with a number in range.
  with_game :
      (n : ℤ) (s : Parsed D)
      → InRange s
      → Holds StaysInRange (
          if out_of_range max_game_size n
          then exited failure
          else returned (record s { opts = record (s.opts) { game = n } }, true))
  with_game n s i = ground arith

  with_robots :
      (n : ℤ) (s : Parsed D)
      → InRange s
      → Holds StaysInRange (
          if out_of_range max_robots n
          then exited failure
          else returned
              (record s { opts = record (s.opts) { robots = n }; robots_given = true }, true))
  with_robots n s i = ground arith

  read_game-InRange :
      (next : Option String) (s : Parsed D) → InRange s → Holds StaysInRange (read_game nums next s)
  unfolding read_game
  read_game-InRange none s i = tt
  read_game-InRange (some v) s i = elim (Option-cases (nums.stoi v)) [
    | inl e ↦ rw e tt
    | inr (n, e) ↦ rw e (with_game n s i)
  ]

  read_robots-InRange :
      (next : Option String) (s : Parsed D)
      → InRange s
      → Holds StaysInRange (read_robots nums next s)
  unfolding read_robots
  read_robots-InRange none s i = tt
  read_robots-InRange (some v) s i = elim (Option-cases (nums.stoi v)) [
    | inl e ↦ rw e tt
    | inr (n, e) ↦ rw e (with_robots n s i)
  ]

  read_rtf-InRange :
      (next : Option String) (s : Parsed D) → InRange s → Holds StaysInRange (read_rtf nums next s)
  unfolding read_rtf
  read_rtf-InRange none s i = tt
  read_rtf-InRange (some v) s i = elim (Option-cases (nums.stod v)) [
    | inl e ↦ rw e tt
    | inr (x, e) ↦ rw e (ground arith)
  ]

  read_field-InRange :
      (next : Option String) (s : Parsed D) → InRange s → Holds StaysInRange (read_field next s)
  unfolding read_field
  read_field-InRange none s i = tt
  read_field-InRange (some v) s i = ground arith

  read_config_dir-InRange :
      (next : Option String) (s : Parsed D)
      → InRange s
      → Holds StaysInRange (read_config_dir next s)
  unfolding read_config_dir
  read_config_dir-InRange none s i = tt
  read_config_dir-InRange (some v) s i = ground arith

  read_keyframe-InRange :
      (next : Option String) (s : Parsed D) → InRange s → Holds StaysInRange (read_keyframe next s)
  unfolding read_keyframe
  read_keyframe-InRange none s i = tt
  read_keyframe-InRange (some v) s i = ground arith

  read_arg-InRange :
      (arg : String) (next : Option String) (s : Parsed D)
      → InRange s
      → Holds StaysInRange (read_arg nums arg next s)
  unfolding read_arg
  read_arg-InRange arg next s i =
      let p = StaysInRange in
      Holds-if p (str_eq arg "--headless") _ _ (ground arith) (
        Holds-if p (str_eq arg "--field") _ _ (read_field-InRange next s i) (
          Holds-if p (str_eq arg "--game") _ _ (read_game-InRange next s i) (
            Holds-if p (str_eq arg "--on-field-positions") _ _ (ground arith) (
              Holds-if p (str_eq arg "--config-dir") _ _ (read_config_dir-InRange next s i) (
                Holds-if p (str_eq arg "--keyframe") _ _ (read_keyframe-InRange next s i) (
                  Holds-if p (str_eq arg "--rtf") _ _ (read_rtf-InRange next s i) (
                    Holds-if p (str_eq arg "--robots") _ _ (read_robots-InRange next s i)
                      (Holds-if p (str_eq arg "--help" || str_eq arg "-h") _ _ tt tt))))))))

  read_args-InRange :
      (args : List String) (s : Parsed D) → InRange s → Holds InRange (read_args nums args s)
  unfolding read_args
  read_args-InRange [] s i = i
  read_args-InRange (arg ∷ []) s i =
      Holds->>= StaysInRange InRange (read_arg nums arg none s) _ (read_arg-InRange arg none s i)
        (λ r h. h)
  read_args-InRange (arg ∷ v ∷ rest) s i =
      Holds->>= StaysInRange InRange (read_arg nums arg (some v) s) _
        (read_arg-InRange arg (some v) s i)
        (λ r h.
          Holds-if InRange r.1 _ _ (read_args-InRange rest r.0 h)
            (read_args-InRange (v ∷ rest) r.0 h))

module _ {D : Type 0} ⦃f : Double D⦄ where
  check_options-IsValid :
      (s : Parsed D) (o : CliOptions D) → InRange s → check_options s ≡ returned o → IsValid o
  unfolding check_options
  check_options-IsValid s o i e = ground (arith, eq_iff s.opts.field "")

  default-InRange : InRange {D = D} (record { opts = default_options; robots_given = false })
  unfolding default_options
  default-InRange = ground arith

  check_options-Holds : (s : Parsed D) → InRange s → Holds IsValid (check_options s)
  check_options-Holds s i = of_result (check_options s) refl
    where
      of_result : (o : Outcome (CliOptions D)) → check_options s ≡ o → Holds IsValid o
      of_result (returned o) e = check_options-IsValid s o i e
      of_result (exited c) e = tt
      of_result thrown e = tt

  -- Whatever the arguments are: options that `parse_cli` returns have a game of 0 to 11 robots a
  -- side and 1 to 20 robots; with a game the field is not named and the number of robots is the
  -- default; and on-field positions are asked for only with a game.
  pub parse_cli-IsValid :
      (nums : Numbers D) (args : List String) (o : CliOptions D)
      → parse_cli nums args ≡ returned o
      → IsValid o
  unfolding parse_cli
  parse_cli-IsValid nums args o e =
      Holds-returned IsValid (parse_cli nums args) o
        (Holds->>= InRange IsValid (read_args nums args _) check_options
          (read_args-InRange nums args _ default-InRange) check_options-Holds)
        e

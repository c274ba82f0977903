-- ===== src/Startup/Cli/Rejected.antt =====
-- A command line with an argument that `parse_cli` does not know is rejected.
use nusim.Base.{
  ◌≡◌, refl, ap, ◌∙◌, inl, inr, Bool, false, Option, none, some, List, [], ◌∷◌, ◌++◌, arith,
  if◌then◌else◌, if-cases, All,
}
use Prim.Native.String.{String}
use text.Mathlib.Text.{◌==◌ as str_eq}
use nusim.Double.{Double}
use nusim.Startup.Cli.{
  Outcome, exited, thrown, returned, ◌>>=◌, Numbers, Parsed, read_arg, read_args, parse_cli,
  default_options, failure,
}

-- The arguments that have a branch.
abbrev pub flags : List String
flags =
    "--headless" ∷ "--field" ∷ "--game" ∷ "--on-field-positions" ∷ "--config-dir" ∷ "--keyframe"
    ∷ "--rtf" ∷ "--robots" ∷ "--help" ∷ "-h" ∷ []

abbrev pub IsUnknown : String → Type 0
IsUnknown arg = All (λ flag. str_eq arg flag ≡ false) flags

>>=-eq-returned {ℓ κ} :
    {A : Type ℓ} {B : Type κ} (m : Outcome A) (g : A → Outcome B) {b : B}
    → (m >>= g) ≡ returned b
    → (a : A) × (m ≡ returned a) × (g a ≡ returned b)
>>=-eq-returned (returned a) g h = (a, refl, h)
>>=-eq-returned (exited c) g h = cc
>>=-eq-returned thrown g h = cc

module _ {D : Type 0} ⦃f : Double D⦄ (nums : Numbers D) where
  read_arg-exited :
      (arg : String) (next : Option String) (s : Parsed D)
      → IsUnknown arg
      → read_arg nums arg next s ≡ exited failure
  unfolding read_arg
  read_arg-exited arg next s u = ground arith

  -- An argument that is read as the last one takes no value, and is read alike before others.
  read_arg-none :
      (arg : String) (next : Option String) (s : Parsed D) (r : Parsed D × Bool)
      → read_arg nums arg none s ≡ returned r
      → (read_arg nums arg next s ≡ returned r) × (r.1 ≡ false)
  unfolding read_arg
  read_arg-none arg next s r e = ground arith

  -- One round of the loop where an argument follows.
  read_args-step :
      (arg v : String) (rest : List String) (s : Parsed D) (r : Parsed D × Bool)
      → read_arg nums arg (some v) s ≡ returned r
      → read_args nums (arg ∷ v ∷ rest) s
        ≡ (if r.1 then read_args nums rest r.0 else read_args nums (v ∷ rest) r.0)
  unfolding read_args
  read_args-step arg v rest s r e = rw e

  read_args-last :
      (arg : String) (after : List String) (s t : Parsed D)
      → read_arg nums arg none s ≡ returned (t, false)
      → read_args nums (arg ∷ after) s ≡ read_args nums after t
  unfolding read_args
  read_args-last arg [] s t e = rw e
  read_args-last arg (v ∷ rest) s t e =
      read_args-step arg v rest s (t, false) (read_arg-none arg (some v) s (t, false) e).0

  -- The arguments are read up to their end, so the last one is not a value's missing flag.
  pub read_args-append :
      (before after : List String) (s t : Parsed D)
      → read_args nums before s ≡ returned t
      → read_args nums (before ++ after) s ≡ read_args nums after t
  unfolding read_args
  read_args-append [] after s t e = ap (read_args nums after) (returned-inj e)
    where
      returned-inj : returned s ≡ returned t → s ≡ t
      returned-inj e = cc
  read_args-append (arg ∷ []) after s t e =
      let (r, ran, out) = >>=-eq-returned (read_arg nums arg none s) _ e in
      let last = (read_arg-none arg none s r ran).1 in
      read_args-last arg after s t (ran ∙ ground arith)
  read_args-append (arg ∷ v ∷ rest) after s t e =
      let (r, ran, out) = >>=-eq-returned (read_arg nums arg (some v) s) _ e in
      read_args-step arg v (rest ++ after) s r ran ∙ elim (if-cases r.1 _ _ _ out) [
        | inl (b, h) ↦ rw b (read_args-append rest after r.0 t h)
        | inr (b, h) ↦ rw b (read_args-append (v ∷ rest) after r.0 t h)
      ]

  -- If the loop has read the arguments `before` without fault and the next one has no branch, the
  -- program exits with status 1, whatever follows.
  pub parse_cli-exited :
      (before : List String) (arg : String) (after : List String) (t : Parsed D)
      → read_args nums before (record { opts = default_options; robots_given = false }) ≡ returned t
      → IsUnknown arg
      → parse_cli nums (before ++ (arg ∷ after)) ≡ exited failure
  unfolding parse_cli
  parse_cli-exited before arg after t e u =
      rw (read_args-append before (arg ∷ after) _ t e) (rw (unread after) refl)
    where
      unread : (after : List String) → read_args nums (arg ∷ after) t ≡ exited failure
      unread [] = rw (read_arg-exited arg none t u)
      unread (v ∷ rest) = rw (read_arg-exited arg (some v) t u)

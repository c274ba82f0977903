-- ===== src/Simulation/Sleep/Exact.antt =====
-- How long is slept.
use nusim.Base.{
  ℕ, ◌+◌, ◌-◌, ◌*◌, ◌<◌, ◌≤ℤ◌, ◌||◌, ◌≡◌, refl, ap, ◌∙◌, inl, inr, Bool, true, false, List, [], ◌∷◌,
  map, arith, if◌then◌else◌, leb, All, pos, ◌+ℤ◌, ◌-ℤ◌, pos_part, Bool-cases,
}
use nusim.Simulation.Pacing.{Timespec}
use nusim.Simulation.Sleep.{
  SleepEnd, finished, interrupted, failed, Wake, remaining, is_over, sleep_until_monotonic,
}

-- A time that nanosleep takes and that the clock gives.
pub record IsTime (t : Timespec) : Type 0 where
  pub sec_low : pos 0 ≤ℤ t.tv_sec
  pub nsec_low : pos 0 ≤ℤ t.tv_nsec
  pub nsec_high : pos_part t.tv_nsec < 1000000000

abbrev pub nanoseconds : Timespec → ℕ
nanoseconds t = pos_part t.tv_sec * 1000000000 + pos_part t.tv_nsec

-- The same loop on numbers of nanoseconds.
unfoldable pub sleep_for : ℕ → List Wake → List ℕ × Bool
sleep_for deadline [] = ([], false)
sleep_for deadline (w ∷ ws) =
    let (more, done) = sleep_for deadline ws in
    let now = nanoseconds w.now in
    if leb deadline now then ([], true) else elim w.slept [
      | interrupted ↦ ((deadline - now) ∷ more, done)
      | _ ↦ ((deadline - now) ∷ [], true)
    ]

remaining-over :
    (t now : Timespec)
    → IsTime t
    → IsTime now
    → is_over (remaining t now) ≡ leb (nanoseconds t) (nanoseconds now)
unfolding remaining is_over ◌-ℤ◌ ◌+ℤ◌
remaining-over t now h h' = ground arith

remaining-left :
    (t now : Timespec)
    → IsTime t
    → IsTime now
    → leb (nanoseconds t) (nanoseconds now) ≡ false
    → IsTime (remaining t now) × (nanoseconds (remaining t now) ≡ nanoseconds t - nanoseconds now)
unfolding remaining ◌-ℤ◌ ◌+ℤ◌
remaining-left t now h h' left = ground arith

-- A reading of the clock after which the loop ends: the deadline is reached, or nanosleep is not
-- interrupted.
abbrev pub ends : ℕ → Wake → Bool
ends deadline w =
    leb deadline (nanoseconds w.now) || elim w.slept [ interrupted ↦ false | _ ↦ true ]

unfoldable pub ever_ends : ℕ → List Wake → Bool
ever_ends deadline [] = false
ever_ends deadline (w ∷ ws) = ends deadline w || ever_ends deadline ws

sleep_for-ends : (deadline : ℕ) (ws : List Wake) → (sleep_for deadline ws).1 ≡ ever_ends deadline ws
unfolding sleep_for ever_ends
sleep_for-ends deadline [] = refl
sleep_for-ends deadline (w ∷ ws) = ground (arith, sleep_for-ends deadline ws)

unfoldable pub Agrees : List Timespec × Bool → List ℕ × Bool → Type 0
Agrees (asked, done) (counts, done') =
    All IsTime asked × (map nanoseconds asked ≡ counts) × (done ≡ done')

Agrees-answer :
    (s : SleepEnd) (left : Timespec) (more : List Timespec × Bool) (more' : List ℕ × Bool) {n : ℕ}
    → IsTime left
    → nanoseconds left ≡ n
    → Agrees more more'
    → Agrees
        (elim s [ interrupted ↦ (left ∷ more.0, more.1) | _ ↦ (left ∷ [], true) ])
        (elim s [ interrupted ↦ (n ∷ more'.0, more'.1) | _ ↦ (n ∷ [], true) ])
unfolding Agrees
Agrees-answer finished left more more' h e a = ((h, tt), ap (λ n. n ∷ []) e, refl)
Agrees-answer failed left more more' h e a = ((h, tt), ap (λ n. n ∷ []) e, refl)
Agrees-answer interrupted left more more' h e (fit, same, ended) = ((h, fit), cc, ended)

sleep_until-sleep_for :
    (deadline : Timespec) (ws : List Wake)
    → IsTime deadline
    → All (λ w. IsTime w.now) ws
    → Agrees (sleep_until_monotonic deadline ws) (sleep_for (nanoseconds deadline) ws)
unfolding sleep_until_monotonic sleep_for Agrees
sleep_until-sleep_for deadline [] h hs = (tt, refl, refl)
sleep_until-sleep_for deadline (w ∷ ws) h hs =
    let over = remaining-over deadline w.now h hs.0 in
    elim (Bool-cases (leb (nanoseconds deadline) (nanoseconds w.now))) [
      | inl e ↦ rw (over, e) (tt, refl, refl)
      | inr e ↦
          let (fits, left) = remaining-left deadline w.now h hs.0 e in
          rw (over, e)
            (Agrees-answer w.slept (remaining deadline w.now) (sleep_until_monotonic deadline ws)
              (sleep_for (nanoseconds deadline) ws) fits left
              (sleep_until-sleep_for deadline ws h hs.1))
    ]

-- With a deadline and readings of the clock that are times, nanosleep is always asked for a time
-- that it takes, and that is exactly what is left until the deadline; and the loop returns at the
-- first reading that has reached the deadline or after which nanosleep is not interrupted, and not
-- before.
pub sleep_until-exact :
    (deadline : Timespec) (ws : List Wake)
    → IsTime deadline
    → All (λ w. IsTime w.now) ws
    → Agrees (sleep_until_monotonic deadline ws) (sleep_for (nanoseconds deadline) ws)
      × ((sleep_until_monotonic deadline ws).1 ≡ ever_ends (nanoseconds deadline) ws)
unfolding Agrees
sleep_until-exact deadline ws h hs =
    let a = sleep_until-sleep_for deadline ws h hs in
    (a, a.2 ∙ sleep_for-ends (nanoseconds deadline) ws)

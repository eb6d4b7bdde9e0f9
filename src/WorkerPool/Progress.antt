-- ===== src/WorkerPool/Progress.antt =====
-- The way from a call of `Stop` to the end of the process.
use paota.Common.{
  ℕ, ◌-◌, ◌≡◌, ◌≢◌, refl, ◌∙◌, ap, subst, ◌⊎◌, inl, inr, true, false, Bool-cases, arith,
}
use paota.WorkerPool.Protocol.{
  Phase, idle, connecting, looping, busy, confirming, leaving, returned, sleeping, exited, crashed,
  Stage, running, closing, sending, waiting, collecting, finished, Life, Step, opened, hand_over,
  crash, exit, wake, close, request, wait, confirm, leave, Reach, here, next, alive, new_life,
  new_life-Inv, Inv, Reach-Inv, Step-Inv, fits, busy_count, is_started,
}

-- Some steps lead to the end of the process.
abbrev pub CanEnd : Life → Type 0
CanEnd s = (t : Life) × Reach s t × ((t.phase ≡ exited) ⊎ (t.phase ≡ crashed))

first_step : {s u t : Life} → Step s u → Reach u t → Reach s t
first_step st here = next here st
first_step st (next r more) = next (first_step st r) more

CanEnd-step : {s u : Life} → Step s u → CanEnd u → CanEnd s
CanEnd-step st (t, r, e) = (t, first_step st r, e)

after_return : (s : Life) → s.phase ≡ returned → s.started ≡ false → CanEnd s
after_return s p f = (record s { phase = exited }, next here (exit p f refl), inl refl)

from_leaving : (s : Life) → s.phase ≡ leaving → s.started ≡ false → CanEnd s
from_leaving s p f =
    CanEnd-step (leave p refl) (after_return (record s { phase = returned }) refl f)

-- The rendezvous of the two goroutines, backwards.
from_collecting :
    (s : Life) → s.phase ≡ confirming → s.stage ≡ collecting → s.started ≡ false → CanEnd s
from_collecting s p g f =
    CanEnd-step (confirm p g refl)
      (from_leaving (record s { phase = leaving; stage = finished }) refl f)

from_waiting :
    (s : Life)
    → s.phase ≡ confirming
    → s.stage ≡ waiting
    → s.in_progress ≡ 0
    → s.started ≡ false
    → CanEnd s
from_waiting s p g n f =
    CanEnd-step (wait (ap alive p) g n refl)
      (from_collecting (record s { stage = collecting }) p refl f)

from_sending :
    (s : Life)
    → s.phase ≡ looping
    → s.stage ≡ sending
    → s.in_progress ≡ 0
    → s.started ≡ false
    → CanEnd s
from_sending s p g n f =
    CanEnd-step (request p g refl)
      (from_waiting (record s { phase = confirming; stage = waiting }) refl refl n f)

from_closing :
    (s : Life)
    → s.phase ≡ looping
    → s.stage ≡ closing
    → s.in_progress ≡ 0
    → s.started ≡ false
    → CanEnd s
from_closing s p g n f =
    CanEnd-step (close (ap alive p) g refl)
      (from_sending (record s { stage = sending; open_channels = false }) p refl n f)

looping_stage : (g : Stage) → g ≢ running → fits g looping ≡ true → (g ≡ closing) ⊎ (g ≡ sending)
looping_stage g h k = ground arith

confirming_stage :
    (g : Stage) → g ≢ running → fits g confirming ≡ true → (g ≡ waiting) ⊎ (g ≡ collecting)
confirming_stage g h k = ground arith

idle_stage : (g : Stage) → g ≢ running → fits g idle ≢ true
idle_stage g h k = ground arith

stopped_flag : (g : Stage) (p : Phase) → g ≢ running → is_started g p ≡ false
stopped_flag g p h = ground arith

module _ (s : Life) (inv : Inv s) (called : s.stage ≢ running) where
  flag : s.started ≡ false
  flag = inv.2 ∙ stopped_flag s.stage s.phase called

  from_looping : s.phase ≡ looping → CanEnd s
  from_looping p =
      let none_left : s.in_progress ≡ 0 = inv.0 ∙ ap busy_count p in
      let fit : fits s.stage looping ≡ true = subst (λ q. fits s.stage q ≡ true) p inv.1 in
      elim (looping_stage s.stage called fit) [
        | inl g ↦ from_closing s p g none_left flag
        | inr g ↦ from_sending s p g none_left flag
      ]

  from_confirming : s.phase ≡ confirming → CanEnd s
  from_confirming p =
      let none_left : s.in_progress ≡ 0 = inv.0 ∙ ap busy_count p in
      let fit : fits s.stage confirming ≡ true = subst (λ q. fits s.stage q ≡ true) p inv.1 in
      elim (confirming_stage s.stage called fit) [
        | inl g ↦ from_waiting s p g none_left flag
        | inr g ↦ from_collecting s p g flag
      ]

from_connecting : (s : Life) → Inv s → s.stage ≢ running → s.phase ≡ connecting → CanEnd s
from_connecting s inv called p =
    let st = opened p refl in
    CanEnd-step st (from_looping (record s { phase = looping }) (Step-Inv st inv) called refl)

from_busy : (s : Life) → Inv s → s.stage ≢ running → s.phase ≡ busy → CanEnd s
from_busy s inv called p = elim (Bool-cases s.open_channels) [
  | inl open_ ↦
      let st = hand_over p open_ refl in
      CanEnd-step st (
        from_looping (record s { phase = looping; in_progress = s.in_progress - 1 })
          (Step-Inv st inv) called refl)
  | inr shut ↦ (
    record s { phase = crashed; in_progress = s.in_progress - 1 },
    next here (crash p shut refl),
    inr refl,
  )
]

by_phase : (s : Life) → Inv s → s.stage ≢ running → (p : Phase) → s.phase ≡ p → CanEnd s
by_phase s inv called idle e =
    absurd (idle_stage s.stage called (subst (λ q. fits s.stage q ≡ true) e inv.1))
by_phase s inv called connecting e = from_connecting s inv called e
by_phase s inv called looping e = from_looping s inv called e
by_phase s inv called busy e = from_busy s inv called e
by_phase s inv called confirming e = from_confirming s inv called e
by_phase s inv called leaving e = from_leaving s e (flag s inv called)
by_phase s inv called returned e = after_return s e (flag s inv called)
by_phase s inv called sleeping e =
    let st = wake e refl in
    CanEnd-step st (from_connecting (record s { phase = connecting }) (Step-Inv st inv) called refl)
by_phase s inv called exited e = (s, here, inl e)
by_phase s inv called crashed e = (s, here, inr e)

-- Once `Stop` has been called there is no deadlock: from each state that is reached some steps lead to
-- the end of the process, though it may be the crash of a send on a closed channel.
pub Reach-CanEnd : (tasks : ℕ) (s : Life) → Reach (new_life tasks) s → s.stage ≢ running → CanEnd s
Reach-CanEnd tasks s r called = by_phase s (Reach-Inv r (new_life-Inv tasks)) called s.phase refl

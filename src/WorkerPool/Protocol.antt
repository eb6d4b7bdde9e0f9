-- ===== src/WorkerPool/Protocol.antt =====
-- workerpool/workerpool.go, `Start` and `Stop`, and `StopConsumer` of the broker: the goroutine that
-- consumes, the one that stops, and the channels between them, as steps in any order.
use paota.Common.{ℕ, ◌+◌, ◌-◌, ◌≡◌, ◌≢◌, refl, subst, ap, ◌∙◌, Bool, true, false, arith}

-- Where the consuming goroutine is. It has not been started; `StartConsumer` opens its channel, waits
-- in its loop, hands a delivery over, sends on `doneStopChannel`, is leaving once that is received (it
-- closes its channel and releases its connection), has returned; the goroutine sleeps for three seconds. The process has exited, or crashed.
pub data Phase : Type 0 where
  idle connecting looping busy confirming leaving returned sleeping exited crashed : Phase

-- Where the stopping goroutine is: it waits for a signal; has cleared `started`; sends on
-- `stopChannel`; waits for the deliveries in progress; receives from `doneStopChannel`; is done.
pub data Stage : Type 0 where
  running closing sending waiting collecting finished : Stage

-- `open_channels`: the job channels of the workers are open. `in_progress` is the counter of
-- `processingWG`.
pub record Life : Type 0 where
  pub phase : Phase
  pub stage : Stage
  pub started : Bool
  pub open_channels : Bool
  pub in_progress : ℕ
  pub tasks : ℕ

-- The process is still there.
abbrev pub alive : Phase → Bool
alive exited = false
alive crashed = false
alive _ = true

pub data Step (s t : Life) : Type 0 where
  start :
      s.phase ≡ idle
      → s.stage ≡ running
      → t ≡ record s { phase = connecting; started = true }
      → Step s t
  opened : s.phase ≡ connecting → t ≡ record s { phase = looping } → Step s t
  not_opened : s.phase ≡ connecting → t ≡ record s { phase = returned } → Step s t
  take :
      s.phase ≡ looping → t ≡ record s { phase = busy; in_progress = s.in_progress + 1 } → Step s t
  hand_over :
      s.phase ≡ busy
      → s.open_channels ≡ true
      → t ≡ record s { phase = looping; in_progress = s.in_progress - 1 }
      → Step s t
  -- A send on a closed channel.
  crash :
      s.phase ≡ busy
      → s.open_channels ≡ false
      → t ≡ record s { phase = crashed; in_progress = s.in_progress - 1 }
      → Step s t
  refuse :
      s.phase ≡ busy → t ≡ record s { phase = returned; in_progress = s.in_progress - 1 } → Step s t
  break_off : s.phase ≡ looping → t ≡ record s { phase = returned } → Step s t
  pause : s.phase ≡ returned → s.started ≡ true → t ≡ record s { phase = sleeping } → Step s t
  exit : s.phase ≡ returned → s.started ≡ false → t ≡ record s { phase = exited } → Step s t
  wake : s.phase ≡ sleeping → t ≡ record s { phase = connecting } → Step s t
  -- `Stop` does nothing before `Start`, or when no task is registered.
  signal :
      alive s.phase ≡ true
      → s.stage ≡ running
      → s.started ≡ true
      → s.tasks ≢ 0
      → t ≡ record s { stage = closing; started = false }
      → Step s t
  close :
      alive s.phase ≡ true
      → s.stage ≡ closing
      → t ≡ record s { stage = sending; open_channels = false }
      → Step s t
  -- Both channels have no buffer: sender and receiver go on together.
  request :
      s.phase ≡ looping
      → s.stage ≡ sending
      → t ≡ record s { phase = confirming; stage = waiting }
      → Step s t
  wait :
      alive s.phase ≡ true
      → s.stage ≡ waiting
      → s.in_progress ≡ 0
      → t ≡ record s { stage = collecting }
      → Step s t
  confirm :
      s.phase ≡ confirming
      → s.stage ≡ collecting
      → t ≡ record s { phase = leaving; stage = finished }
      → Step s t
  leave : s.phase ≡ leaving → t ≡ record s { phase = returned } → Step s t

pub data Reach (s : Life) : Life → Type 0 where
  here : Reach s s
  next : {t u : Life} → Reach s t → Step t u → Reach s u

-- Before `Start`.
abbrev pub new_life : ℕ → Life
new_life tasks = record {
  phase = idle;
  stage = running;
  started = false;
  open_channels = true;
  in_progress = 0;
  tasks = tasks;
}

-- What the phase and the stage have to do with each other and with the flags.
abbrev pub busy_count : Phase → ℕ
busy_count busy = 1
busy_count _ = 0

abbrev pub fits : Stage → Phase → Bool
fits running exited = false
fits running crashed = false
fits running confirming = false
fits running leaving = false
fits running _ = true
fits closing idle = false
fits closing confirming = false
fits closing leaving = false
fits closing crashed = false
fits closing _ = true
fits sending idle = false
fits sending confirming = false
fits sending leaving = false
fits sending _ = true
fits waiting confirming = true
fits waiting _ = false
fits collecting confirming = true
fits collecting _ = false
fits finished leaving = true
fits finished returned = true
fits finished exited = true
fits finished _ = false

abbrev pub is_started : Stage → Phase → Bool
is_started running idle = false
is_started running _ = true
is_started _ _ = false

abbrev has_channels : Stage → Bool
has_channels running = true
has_channels closing = true
has_channels _ = false

abbrev pub Inv : Life → Type 0
Inv s =
    (s.in_progress ≡ busy_count s.phase)
    × (fits s.stage s.phase ≡ true)
    × (s.started ≡ is_started s.stage s.phase)
    × (s.open_channels ≡ has_channels s.stage)

pub new_life-Inv : (tasks : ℕ) → Inv (new_life tasks)
new_life-Inv tasks = (refl, refl, refl, refl)

pub Step-Inv : {s t : Life} → Step s t → Inv s → Inv t
Step-Inv (start a b c) i = ground arith
Step-Inv (opened a b) i = ground arith
Step-Inv (not_opened a b) i = ground arith
Step-Inv (take a b) i = ground arith
Step-Inv (hand_over a b c) i = ground arith
Step-Inv (crash a b c) i = ground arith
Step-Inv (refuse a b) i = ground arith
Step-Inv (break_off a b) i = ground arith
Step-Inv (pause a b c) i = ground arith
Step-Inv (exit a b c) i = ground arith
Step-Inv (wake a b) i = ground arith
Step-Inv (signal a b c d e) i = ground arith
Step-Inv (close a b c) i = ground arith
Step-Inv (request a b c) i = ground arith
Step-Inv (wait a b c d) i = ground arith
Step-Inv (confirm a b c) i = ground arith
Step-Inv (leave a b) i = ground arith

pub Reach-Inv : {s t : Life} → Reach s t → Inv s → Inv t
Reach-Inv here i = i
Reach-Inv (next r st) i = Step-Inv st (Reach-Inv r i)

fits_waiting : (p : Phase) → fits waiting p ≡ true → p ≡ confirming
fits_waiting p h = ground arith

-- Whatever errors end the consumer, the process exits only after `Stop` has been called.
pub Reach-exited :
    (tasks : ℕ) (s : Life)
    → Reach (new_life tasks) s
    → s.phase ≡ exited
    → (s.started ≡ false) × (s.stage ≢ running)
Reach-exited tasks s r h =
    let (count, fit, flag, _) = Reach-Inv r (new_life-Inv tasks) in
    let stopped : s.stage ≢ running = ground arith in (ground arith, stopped)

-- Once the consumer has taken the request to stop, `Stop` comes to its end in two steps.
pub Reach-completes :
    (tasks : ℕ) (s : Life)
    → Reach (new_life tasks) s
    → s.stage ≡ waiting
    → (t : Life) × Reach s t × (t.stage ≡ finished) × (t.phase ≡ leaving)
Reach-completes tasks s r h =
    let (count, fit, _, _) = Reach-Inv r (new_life-Inv tasks) in
    let sends : s.phase ≡ confirming =
      fits_waiting s.phase (subst (λ g. fits g s.phase ≡ true) h fit) in
    (
      record s { phase = leaving; stage = finished },
      next (next here (wait (rw sends refl) h (count ∙ ap busy_count sends) refl))
          (confirm sends refl refl),
      refl,
      refl,
    )

step_shut : (s t : Life) → s.open_channels ≡ false → Step s t → t.open_channels ≡ false
step_shut s t h (start a b c) = ground arith
step_shut s t h (opened a b) = ground arith
step_shut s t h (not_opened a b) = ground arith
step_shut s t h (take a b) = ground arith
step_shut s t h (hand_over a b c) = ground arith
step_shut s t h (crash a b c) = ground arith
step_shut s t h (refuse a b) = ground arith
step_shut s t h (break_off a b) = ground arith
step_shut s t h (pause a b c) = ground arith
step_shut s t h (exit a b c) = ground arith
step_shut s t h (wake a b) = ground arith
step_shut s t h (signal a b c d e) = ground arith
step_shut s t h (close a b c) = ground arith
step_shut s t h (request a b c) = ground arith
step_shut s t h (wait a b c d) = ground arith
step_shut s t h (confirm a b c) = ground arith
step_shut s t h (leave a b) = ground arith

stays_shut : (s t : Life) → s.open_channels ≡ false → Reach s t → t.open_channels ≡ false
stays_shut s t h here = h
stays_shut s t h (next {t = v} more st) = step_shut v t (stays_shut s v h more) st

-- A delivery that has been taken is not handed over.
no_hand_over :
    (s t : Life) → s.phase ≡ busy → s.open_channels ≡ false → Step s t → t.phase ≢ looping
no_hand_over s t b h (start a c d) e = ground arith
no_hand_over s t b h (opened a c) e = ground arith
no_hand_over s t b h (not_opened a c) e = ground arith
no_hand_over s t b h (take a c) e = ground arith
no_hand_over s t b h (hand_over a c d) e = ground arith
no_hand_over s t b h (crash a c d) e = ground arith
no_hand_over s t b h (refuse a c) e = ground arith
no_hand_over s t b h (break_off a c) e = ground arith
no_hand_over s t b h (pause a c d) e = ground arith
no_hand_over s t b h (exit a c d) e = ground arith
no_hand_over s t b h (wake a c) e = ground arith
no_hand_over s t b h (signal a c d f g) e = ground arith
no_hand_over s t b h (close a c d) e = ground arith
no_hand_over s t b h (request a c d) e = ground arith
no_hand_over s t b h (wait a c d f) e = ground arith
no_hand_over s t b h (confirm a c d) e = ground arith
no_hand_over s t b h (leave a c) e = ground arith

-- Whenever `Stop` waits for the consumer in its loop to take its request, a delivery that comes first
-- and is handed to a worker crashes the process, since the job channels are closed already: from each
-- such state the two steps, of taking a delivery and of handing it over, lead to a crash, and no
-- delivery can be handed over with success.
pub Reach-crashes :
    (tasks : ℕ) (s : Life)
    → Reach (new_life tasks) s
    → s.stage ≡ sending
    → s.phase ≡ looping
    → ((u : Life) × Step s u × (u.phase ≡ busy) × (t : Life) × Step u t × (t.phase ≡ crashed))
      × ((u t : Life) → Reach s u → u.phase ≡ busy → Step u t → t.phase ≢ looping)
Reach-crashes tasks s r h l =
    let inv = Reach-Inv r (new_life-Inv tasks) in
    let (_, _, _, channels) = inv in
    let taken : Life = record s { phase = busy; in_progress = s.in_progress + 1 } in
    (
      (
        taken,
        take l refl,
        refl,
        record s { phase = crashed; in_progress = s.in_progress + 1 - 1 },
        crash refl (channels ∙ ap has_channels h) refl,
        refl,
      ),
      λ u t more b st. no_hand_over u t b (stays_shut s u (channels ∙ ap has_channels h) more) st,
    )

-- ===== src/Agent/Runner/Control.antt =====
-- How a runner is stopped: `Stop`, `Done` and the start and the end of `Run`, in
-- internal/log-pilot-agent/runner/runner.go. They meet in the field `cancel`, under a mutex, and in the channel `done`.
-- `Run` and `Stop` run in goroutines of their own, `Run` once. What `Run` does between is in Runner.
use logpilot.Prelude.{◌≡◌, refl, sym, subst, ◌≢◌, Bool, true, false}

-- The field `cancel`: nil, the function that `Stop` leaves when it is first, the run context's own.
pub data Cancel : Type 0 where
  unset marked live : Cancel

pub data Phase : Type 0 where
  idle running finished : Phase

-- `cancelled` says that the run context is; `asked` that `Stop` was called.
pub record Control : Type 0 where
  pub cancel : Cancel
  pub phase : Phase
  pub cancelled : Bool
  pub asked : Bool

-- `New`
abbrev pub new_control : Control
new_control = record { cancel = unset; phase = idle; cancelled = false; asked = false }

-- `Stop`
unfoldable pub stop : Control → Control
stop k = elim k.cancel [
  | live ↦ record k { asked = true; cancelled = true }
  | marked ↦ record k { asked = true }
  | unset ↦ record k { asked = true; cancel = marked }
]

-- `Run` up to its loop; `outside` says that the context it is given is done.
unfoldable pub begin_run : Bool → Control → Control
begin_run outside k = elim k.cancel [
  | unset ↦ record k { phase = running; cancel = live; cancelled = outside }
  | marked ↦ record k { phase = running; cancelled = true }
  | live ↦ record k { phase = running; cancelled = true }
]

-- The given context is done, and with it the run context.
abbrev outer_done : Control → Control
outer_done k = record k { cancelled = true }

-- The deferred calls when `Run` returns, whatever made it return: the context is cancelled, and then
-- `done` is closed.
unfoldable pub end_run : Control → Control
end_run k = record k { phase = finished; cancelled = true }

pub data Step (k l : Control) : Type 0 where
  stops : l ≡ stop k → Step k l
  begins : (outside : Bool) → k.phase ≡ idle → l ≡ begin_run outside k → Step k l
  outer_stops : k.phase ≡ running → l ≡ outer_done k → Step k l
  ends : k.phase ≡ running → l ≡ end_run k → Step k l

pub data Reach (k : Control) : Control → Type 0 where
  here : Reach k k
  next : {l m : Control} → Reach k l → Step l m → Reach k m

-- What holds between the calls, for each phase and each value of `cancel`.
abbrev Consistent : Phase → Cancel → Bool → Bool → Type 0
Consistent idle unset cancelled asked = (asked ≡ false) × (cancelled ≡ false)
Consistent idle marked cancelled asked = (asked ≡ true) × (cancelled ≡ false)
Consistent idle live cancelled asked = ⊥
Consistent running unset cancelled asked = ⊥
Consistent running marked cancelled asked = cancelled ≡ true
Consistent running live cancelled asked = (asked ≡ true) → (cancelled ≡ true)
Consistent finished cancel cancelled asked = (cancelled ≡ true) × (cancel ≢ unset)

abbrev IsConsistent : Control → Type 0
IsConsistent k = Consistent k.phase k.cancel k.cancelled k.asked

stop-Consistent :
    (phase : Phase) (cancel : Cancel) (cancelled asked : Bool)
    → Consistent phase cancel cancelled asked
    → IsConsistent
        (stop (record { cancel = cancel; phase = phase; cancelled = cancelled; asked = asked }))
unfolding stop
stop-Consistent idle unset cancelled asked (a, c) = (refl, c)
stop-Consistent idle marked cancelled asked (a, c) = (refl, c)
stop-Consistent idle live cancelled asked h = h
stop-Consistent running unset cancelled asked h = absurd h
stop-Consistent running marked cancelled asked h = h
stop-Consistent running live cancelled asked h = λ e. refl
stop-Consistent finished unset cancelled asked (c, n) = absurd (n refl)
stop-Consistent finished marked cancelled asked h = h
stop-Consistent finished live cancelled asked (c, n) = (refl, n)

begin_run-Consistent :
    (outside : Bool) (cancel : Cancel) (cancelled asked : Bool)
    → Consistent idle cancel cancelled asked
    → IsConsistent (
        begin_run outside
          (record { cancel = cancel; phase = idle; cancelled = cancelled; asked = asked }))
unfolding begin_run
begin_run-Consistent outside unset cancelled asked (a, c) = λ e. absurd (cc)
begin_run-Consistent outside marked cancelled asked h = refl
begin_run-Consistent outside live cancelled asked h = absurd h

set-Consistent :
    (cancel : Cancel) (cancelled asked : Bool)
    → Consistent running cancel cancelled asked
    → Consistent running cancel true asked × Consistent finished cancel true asked
set-Consistent unset cancelled asked h = absurd h
set-Consistent marked cancelled asked h = (refl, (refl, λ e. absurd (cc)))
set-Consistent live cancelled asked h = ((λ e. refl), (refl, λ e. absurd (cc)))

in_phase :
    (k : Control) (phase : Phase)
    → k.phase ≡ phase
    → IsConsistent k
    → Consistent phase k.cancel k.cancelled k.asked
in_phase k phase p h = subst (λ x. Consistent x k.cancel k.cancelled k.asked) p h

Step-IsConsistent : (k l : Control) → Step k l → IsConsistent k → IsConsistent l
unfolding begin_run end_run
Step-IsConsistent k l (stops e) h =
    subst IsConsistent (sym e) (stop-Consistent k.phase k.cancel k.cancelled k.asked h)
Step-IsConsistent k l (begins outside p e) h =
    subst IsConsistent (sym e)
      (begin_run-Consistent outside k.cancel k.cancelled k.asked (in_phase k idle p h))
Step-IsConsistent k l (outer_stops p e) h =
    let (now, later) = set-Consistent k.cancel k.cancelled k.asked (in_phase k running p h) in
    subst IsConsistent (sym e) (subst (λ x. Consistent x k.cancel true k.asked) (sym p) now)
Step-IsConsistent k l (ends p e) h =
    subst IsConsistent (sym e)
      (set-Consistent k.cancel k.cancelled k.asked (in_phase k running p h)).1

Reach-IsConsistent : {k : Control} → Reach new_control k → IsConsistent k
Reach-IsConsistent here = (refl, refl)
Reach-IsConsistent (next r s) = Step-IsConsistent _ _ s (Reach-IsConsistent r)

abbrev NoneLost : Phase → Bool → Bool → Type 0
NoneLost phase cancelled asked =
    (asked ≡ true → phase ≢ idle → cancelled ≡ true) × (phase ≡ finished → cancelled ≡ true)

Consistent-NoneLost :
    (phase : Phase) (cancel : Cancel) (cancelled asked : Bool)
    → Consistent phase cancel cancelled asked
    → NoneLost phase cancelled asked
Consistent-NoneLost idle cancel cancelled asked h = ((λ a d. absurd (d refl)), λ f. absurd (cc))
Consistent-NoneLost running unset cancelled asked h = absurd h
Consistent-NoneLost running marked cancelled asked h = ((λ a d. h), λ f. h)
Consistent-NoneLost running live cancelled asked h = ((λ a d. h a), λ f. absurd (cc))
Consistent-NoneLost finished cancel cancelled asked (c, n) = ((λ a d. c), λ f. c)

-- No stop is lost, whenever it comes: in whatever order the calls of `Stop` and the start of `Run`
-- go, when both have been, the run context is done; and `Done` is closed only then.
pub Reach-cancelled :
    {k : Control}
    → Reach new_control k
    → ((k.asked ≡ true) → (k.phase ≢ idle) → (k.cancelled ≡ true))
      × ((k.phase ≡ finished) → (k.cancelled ≡ true))
Reach-cancelled r = Consistent-NoneLost _ _ _ _ (Reach-IsConsistent r)

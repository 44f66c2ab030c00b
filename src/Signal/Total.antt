-- ===== src/Signal/Total.antt =====
-- The rounds of `get_signal` come to an end.
use mathlib.Core.Path.{subst}
use nuvix.Prelude.{
  ℕ, zero, suc, ◌-◌, ◌<◌, ◌≡◌, refl, ◌∙◌, fun_ext, Bool, true, false, ◌&&◌, not, none, some, arith,
  ◌==◌, List, [], ◌≢◌, ap, All, ◌∷◌, sym,
}
use nuvix.Bitmap.Find.{weight, weight_drop, weight_le}
use nuvix.Signal.{Task, deliverable}
use nuvix.Signal.Receive.{
  Round, nothing, waits, exits, stops, again, delivers, get_round, run_rounds, get_signal,
}
use nuvix.Signal.Inv.{IsValid}
use nuvix.Signal.Rounds.{Outcome, Took, get_round-Outcome}

-- Rounds that drop an ignored signal each.
pub data Dropped : Task → Task → Type 0 where
  none_yet : {t : Task} → Dropped t t
  one_more : {t t' t'' : Task} → get_round none t ≡ again t' → Dropped t' t'' → Dropped t t''

abbrev pub is_final : Round → Bool
is_final (again t) = false
is_final (nothing t) = true
is_final (waits t) = true
is_final (exits sig t) = true
is_final (stops t) = true
is_final (delivers k t) = true

-- The round that ends the call, or in which the task sleeps, after rounds that drop a signal each.
pub record Ends (t : Task) (r : Round) : Type 0 where
  pub last : Task
  pub valid : IsValid last
  pub dropped : Dropped t last
  pub round : get_round none last ≡ r
  pub outcome : Outcome last r
  pub final : is_final r ≡ true

Took-weight :
    {t t' : Task} {sig : ℕ} → Took t sig t' → weight 31 (deliverable t') < weight 31 (deliverable t)
Took-weight {t} {t'} {sig} k =
    let low = k.chosen.low in
    let high = k.chosen.high in
    let e : deliverable t' ≡ (λ i. deliverable t i && not (i == sig - 1)) =
      (λ j i. k.pending j i && not (k.blocked j i))
      ∙ fun_ext (λ i. swap (t.pending i) (i == sig - 1) (t.blocked i)) in
    rw e (weight_drop 31 (sig - 1) (deliverable t) (omega arith) k.chosen.here)
  where
    swap : (a b c : Bool) → ((a && not b) && not c) ≡ ((a && not c) && not b)
    swap a b c = ground arith

abbrev Finishes : ℕ → Task → Type 0
Finishes n t = (r : Round) × (run_rounds n none t ≡ some r) × Ends t r

rounds : (n : ℕ) (t : Task) → IsValid t → weight 31 (deliverable t) < n → Finishes n t
unfolding run_rounds
rounds zero t v h = absurd (omega arith)
rounds (suc n) t v h = go (λ t'. rounds n t') (get_round none t) refl (get_round-Outcome t v)
  where
    ended : (r : Round) → get_round none t ≡ r → Outcome t r → is_final r ≡ true → Ends t r
    ended r e o f = record {
      last = t;
      valid = v;
      dropped = none_yet;
      round = e;
      outcome = o;
      final = f;
    }

    go :
        ((t' : Task) → IsValid t' → weight 31 (deliverable t') < n → Finishes n t')
        → (r : Round) → get_round none t ≡ r
        → Outcome t r
        → Finishes (suc n) t
    go rec (nothing t') e o = (nothing t', rw (e, run_rounds) refl, ended _ e o refl)
    go rec (waits t') e o = (waits t', rw (e, run_rounds) refl, ended _ e o refl)
    go rec (exits sig t') e o = (exits sig t', rw (e, run_rounds) refl, ended _ e o refl)
    go rec (stops t') e o = (stops t', rw (e, run_rounds) refl, ended _ e o refl)
    go rec (delivers k t') e o = (delivers k t', rw (e, run_rounds) refl, ended _ e o refl)
    go rec (again t') e o =
        let (sig, took, _) = o in
        let lt : weight 31 (deliverable t') < n = omega (arith, Took-weight took) in
        let (r, e', ends) = rec t' took.valid lt in
        (
          r,
          rw (e, run_rounds) e',
          record {
            last = ends.last;
            valid = ends.valid;
            dropped = one_more e ends.dropped;
            round = ends.round;
            outcome = ends.outcome;
            final = ends.final;
          },
        )

run_rounds_total : (t : Task) → IsValid t → (r : Round) × (run_rounds 32 none t ≡ some r) × Ends t r
run_rounds_total t v = rounds 32 t v (omega (arith, weight_le 31 (deliverable t)))

-- How a call goes: it returns or ends the task in some round, or the task sleeps and it goes on with what
-- was made of the task then, or with nothing if no more is known.
pub data Finished : List (Task → Task) → Task → Round → Type 0 where
  returns :
      {fs : List (Task → Task)} {t : Task} {r : Round}
      → Ends t r
      → ((u : Task) → (r ≢ waits u) × (r ≢ stops u))
      → Finished fs t r
  still_waits : {t u : Task} → Ends t (waits u) → Finished [] t (waits u)
  still_stops : {t u : Task} → Ends t (stops u) → Finished [] t (stops u)
  wait_over :
      {f : Task → Task} {fs : List (Task → Task)} {t u : Task} {r : Round}
      → Ends t (waits u)
      → Finished fs (f u) r
      → Finished (f ∷ fs) t r
  stop_over :
      {f : Task → Task} {fs : List (Task → Task)} {t u : Task} {r : Round}
      → Ends t (stops u)
      → Finished fs (f u) r
      → Finished (f ∷ fs) t r

abbrev pub Keeps : (Task → Task) → Type 0
Keeps f = (t : Task) → IsValid t → IsValid (f t)

abbrev Total : List (Task → Task) → Task → Type 0
Total fs t = (r : Round) × (get_signal 32 fs none t ≡ some r) × Finished fs t r

abbrev sleeps_in : Round → Bool
sleeps_in (waits t) = true
sleeps_in (stops t) = true
sleeps_in (again t) = false
sleeps_in (nothing t) = false
sleeps_in (exits sig t) = false
sleeps_in (delivers k t) = false

awake_round : (r : Round) → sleeps_in r ≡ false → (u : Task) → (r ≢ waits u) × (r ≢ stops u)
awake_round r h u = (
  λ e. absurd (ground (arith, ap sleeps_in e, h)),
  λ e. absurd (ground (arith, ap sleeps_in e, h)),
)

last_call : (t : Task) (r : Round) → run_rounds 32 none t ≡ some r → Ends t r → Total [] t
unfolding get_signal
last_call t (waits u) e ends = (waits u, e, still_waits ends)
last_call t (stops u) e ends = (stops u, e, still_stops ends)
last_call t (again u) e ends = (again u, e, returns ends (awake_round (again u) refl))
last_call t (nothing u) e ends = (nothing u, e, returns ends (awake_round (nothing u) refl))
last_call t (exits sig u) e ends = (exits sig u, e, returns ends (awake_round (exits sig u) refl))
last_call t (delivers k u) e ends =
    (delivers k u, e, returns ends (awake_round (delivers k u) refl))

next_call :
    (f : Task → Task) (fs : List (Task → Task)) (t : Task) (r : Round)
    → Keeps f
    → ((u : Task) → IsValid u → Total fs u)
    → run_rounds 32 none t ≡ some r
    → Ends t r
    → Total (f ∷ fs) t
unfolding get_signal
next_call f fs t (waits u) k rec e ends =
    let valid : IsValid u = subst IsValid (sym ends.outcome.0) ends.valid in
    let (r, e', rest) = rec (f u) (k u valid) in (r, rw (get_signal, e) e', wait_over ends rest)
next_call f fs t (stops u) k rec e ends =
    let valid : IsValid u = ends.outcome.1.valid in
    let (r, e', rest) = rec (f u) (k u valid) in (r, rw (get_signal, e) e', stop_over ends rest)
next_call f fs t (again u) k rec e ends =
    (again u, rw (get_signal, e) refl, returns ends (awake_round (again u) refl))
next_call f fs t (nothing u) k rec e ends =
    (nothing u, rw (get_signal, e) refl, returns ends (awake_round (nothing u) refl))
next_call f fs t (exits sig u) k rec e ends =
    (exits sig u, rw (get_signal, e) refl, returns ends (awake_round (exits sig u) refl))
next_call f fs t (delivers q u) k rec e ends =
    (delivers q u, rw (get_signal, e) refl, returns ends (awake_round (delivers q u) refl))

-- From a valid task and without an exception, `get_signal` ends or the task sleeps in it for good,
-- whatever was made of the task in its sleeps before, if that keeps it valid. Between two sleeps 32
-- rounds are enough: the task drops an ignored signal in each but the last, and that one finds no
-- signal, waits for one in sigsuspend, stops or ends the task by a default action, or gives a handler.
pub get_signal_total :
    (fs : List (Task → Task)) (t : Task)
    → All Keeps fs
    → IsValid t
    → (r : Round) × (get_signal 32 fs none t ≡ some r) × Finished fs t r
get_signal_total [] t k v = let (r, e, ends) = run_rounds_total t v in last_call t r e ends
get_signal_total (f ∷ fs) t k v =
    let (r, e, ends) = run_rounds_total t v in
    next_call f fs t r k.0 (λ u w. get_signal_total fs u k.1 w) e ends

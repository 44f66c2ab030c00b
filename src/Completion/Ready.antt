-- ===== src/Completion/Ready.antt =====
-- What a round of a waiting loop of kernel/completion.c returns.
use nuvix.Prelude.{
  ℕ, suc, ◌+◌, ◌-◌, ◌%◌, ◌<◌, ◌≡◌, refl, ap, ◌≢◌, ◌↔◌, inl, inr, Bool, true, false, arith, leb,
  ◌==◌, Bool-cases,
}
use nuvix.Errno.{Result, Result-cases}
use nuvix.Signal.{State}
use nuvix.Wait.{Attempt, ready, finish_wait, wake_up_one, WaitQueue}
use nuvix.Completion.{Completion, forever, take_completion, complete, wait_round, until_round}
use nuvix.Completion.Covered.{Less, take_completion-cases}

complete-record :
    (c : Completion)
    → c.done < forever
    → complete c ≡ record { done = suc c.done; wait = wake_up_one c.wait }
unfolding complete
complete-record c e =
    let below : (c.done == forever) ≡ false = ground (arith, e) in
    let next : (c.done + 1) % 4294967296 ≡ suc c.done = omega (arith, e) in rw (below, next) refl

take_completion-record :
    (n : ℕ) (q : WaitQueue)
    → suc n < forever
    → take_completion (record { done = suc n; wait = q }) ≡ (true, record { done = n; wait = q })
unfolding take_completion
take_completion-record n q e =
    let some_left : (suc n == 0) ≡ false = ground arith in
    let below : (suc n == forever) ≡ false = ground (arith, e) in
    let less : suc n - 1 ≡ n = omega arith in rw (some_left, below, less) refl

-- After `complete` the next round of any caller, with a signal pending or not, returns with a completion and leaves
-- as many as there were before, if that is less than UINT32_MAX - 1.
pub wait_round-complete :
    (c : Completion) (t : ℕ) (s : State) (pending : Bool)
    → suc c.done < forever
    → wait_round (complete c) t s pending
      ≡ (ready, record { done = c.done; wait = finish_wait (wake_up_one c.wait) t })
unfolding wait_round
wait_round-complete c t s pending e =
    rw (complete-record c (omega (arith, e)))
      (rw (take_completion-record c.done (finish_wait (wake_up_one c.wait) t) e) refl)

not_zero : (n d : ℕ) → Less n d → n ≢ 0
not_zero n d (inl (e, _)) z = ground (arith, e, z)
not_zero n d (inr e) z = ground (arith, e, z)

abbrev is_ready : Attempt → Bool
is_ready ready = true
is_ready a = false

nothing_taken : (a : Attempt) (n : ℕ) → n ≡ 0 → is_ready a ≡ false → (a ≡ ready) ↔ (n ≢ 0)
nothing_taken a n z h = ((λ e. ground (arith, h, ap is_ready e)), (λ ne. absurd (ne z)))

-- Both loops return with a completion exactly if there is one to take: a pending signal and a
-- deadline that has passed come second, and a timer that cannot be started too.
pub round-ready_iff :
    (c : Completion) (t : ℕ) (s : State) (pending : Bool) (now deadline : ℕ) (armed : Bool)
    (start : Result (Unit {0}))
    → (((wait_round c t s pending).0 ≡ ready) ↔ (c.done ≢ 0))
      × (((until_round c t now deadline armed start).0 ≡ ready) ↔ (c.done ≢ 0))
unfolding wait_round until_round
round-ready_iff c t s pending now deadline armed start =
    let left : Completion = record c { wait = finish_wait c.wait t } in
    elim (take_completion-cases left) [
      | inr (d, took, less) ↦
          let some_left : c.done ≢ 0 = not_zero c.done d less in
          rw took (((λ _. some_left), (λ _. refl)), ((λ _. some_left), (λ _. refl)))
      | inl (empty, took) ↦ rw took (
        nothing_taken _ c.done empty
            (elim (Bool-cases pending) [ inl p ↦ rw p refl | inr p ↦ rw p refl ]),
        nothing_taken _ c.done empty (elim (Bool-cases (leb deadline now)) [
          | inl p ↦ rw p refl
          | inr p ↦ elim (Bool-cases armed) [
            | inl q ↦ rw (p, q) refl
            | inr q ↦ elim (Result-cases start) [
              | inl (x, r) ↦ rw (p, q, r) refl
              | inr (x, r) ↦ rw (p, q, r) refl
            ]
          ]
        ]),
      )
    ]

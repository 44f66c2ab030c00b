-- ===== src/Tick/Period.antt =====
-- kernel/tick.c: the plan of the periodic event.
use native.Mathlib.Nat.{div-add-mod, mod-lt, mod-eq_of_lt}
use nuvix.Prelude.{
  ℕ, ◌+◌, ◌-◌, ◌*◌, ◌/◌, ◌%◌, ◌^◌, ◌≤◌, ◌<◌, ◌≡◌, refl, inl, inr, arith, leb, leb→le, Bool-cases,
}
use nuvix.Tick.{tick_handle}

-- With a positive period and a time to which a period can be added in 64 bits, the next event is
-- after now. A plan that is not due stays; one that is due moves by a whole number of
-- periods, to at most a period from now, however many events were missed.
pub tick_handle-next :
    (period now next : ℕ)
    → 0 < period
    → now + period < 2 ^ 64
    → (now < tick_handle period now next)
      × ((now < next) → tick_handle period now next ≡ next)
      × ((next ≤ now)
          → ((k : ℕ) × (tick_handle period now next ≡ next + k * period))
            × (tick_handle period now next ≤ now + period))
unfolding tick_handle
tick_handle-next period now next hp hn =
    let k = (now - next) / period in
    let a : period * k + (now - next) % period ≡ now - next = div-add-mod (now - next) period in
    let b : (now - next) % period < period = mod-lt (now - next) hp in
    elim (Bool-cases (leb next now)) [
      | inl h ↦
          let le : next ≤ now = leb→le next now h in
          let m : (next + (k + 1) * period) % 2 ^ 64 ≡ next + (k + 1) * period =
            mod-eq_of_lt (omega (arith, a, b, le)) in
          rw (h, m)
            (
              omega (arith, a, b, le),
              λ late. absurd (omega (arith, late, le)),
              λ due. ((k + 1, refl), omega (arith, a, b, le)),
            )
      | inr h ↦
          let lt : now < next = ground (arith, h) in
          rw h (lt, λ early. refl, λ due. absurd (omega (arith, due, lt)))
    ]

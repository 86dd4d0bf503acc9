-- ===== src/Router/RoundRobin.antt =====
-- `MessageRouter.round_robin` over a sequence of calls.
use native.Mathlib.Nat.{mod-eq_of_lt, mod-eq-sub-mod, mod-add-mod, add-mod_left}
use danube_py.Prelude.{
  ℕ, zero, suc, ◌+◌, ◌*◌, ◌-◌, ◌%◌, ◌<◌, ◌≡◌, ◌∙◌, ap, ℤ, pos, arith, ltb, if◌then◌else◌,
}
use danube_py.Errors.{Result, ok}
use danube_py.Router.{MessageRouter, new, round_robin}

-- A router over `suc n` partitions whose last message went to `last`.
abbrev pub router_at : ℕ → ℕ → MessageRouter
router_at n last = record { partitions = pos (suc n); last = pos last }

-- The result of call `i`, counted from 0, in a sequence of calls.
abbrev pub nth_pick : ℕ → MessageRouter → Result ℤ
nth_pick zero r = (round_robin r).0
nth_pick (suc i) r = nth_pick i (round_robin r).1

pub round_robin_lem :
    (n last : ℕ)
    → round_robin (router_at n last)
      ≡ (ok (pos ((last + 1) % suc n)), router_at n ((last + 1) % suc n))
unfolding round_robin
round_robin_lem n last = ground arith

nth_pick_at : (n i last : ℕ) → nth_pick i (router_at n last) ≡ ok (pos ((last + 1 + i) % suc n))
nth_pick_at n zero last =
    ap (λ x. x.0) (round_robin_lem n last) ∙ ap (λ t. ok (pos (t % suc n))) (omega arith)
nth_pick_at n (suc i) last =
    ap (λ x. nth_pick i x.1) (round_robin_lem n last)
    ∙ nth_pick_at n i ((last + 1) % suc n)
    ∙ ap (λ t. ok (pos t)) (regroup ∙ mod-add-mod (last + 1) (suc n) (1 + i) ∙ shift)
  where
    regroup : ((last + 1) % suc n + 1 + i) % suc n ≡ ((last + 1) % suc n + (1 + i)) % suc n
    regroup = ap (λ t. t % suc n) (omega arith)

    shift : (last + 1 + (1 + i)) % suc n ≡ (last + 1 + suc i) % suc n
    shift = ap (λ t. t % suc n) (omega arith)

mod_wrap : (x m : ℕ) → x < 2 * m → x % m ≡ (if ltb x m then x else x - m)
mod_wrap x m h = grind (arith, mod-eq_of_lt, mod-eq-sub-mod)

pub new_lem : (n : ℕ) → new (pos (suc n)) ≡ router_at n n
unfolding new
new_lem n = ground arith

-- A new router over n partitions, n positive, sends message number i, counted from 0, to partition
-- i % n; the first message goes to partition 0.
nth_pick-new : (n i : ℕ) → nth_pick i (new (pos (suc n))) ≡ ok (pos (i % suc n))
nth_pick-new n i = ap (nth_pick i) (new_lem n) ∙ nth_pick_at n i n ∙ ap (λ t. ok (pos t)) around
  where
    around : (n + 1 + i) % suc n ≡ i % suc n
    around = ap (λ t. (t + i) % suc n) (omega arith) ∙ add-mod_left (suc n) i

abbrev turn : ℕ → ℕ → ℕ → ℕ
turn n last p = if ltb last p then p - (last + 1) else p + suc n - (last + 1)

turn-lt : (n last p : ℕ) → last < suc n → p < suc n → turn n last p < suc n
turn-lt n last p hl hp = ground arith

pick_turn : (n last p : ℕ) → last < suc n → p < suc n → (last + 1 + turn n last p) % suc n ≡ p
pick_turn n last p hl hp = ground (arith, mod_wrap (last + 1 + turn n last p) (suc n))

pick_unique :
    (n last p j : ℕ) → last < suc n → j < suc n → (last + 1 + j) % suc n ≡ p → j ≡ turn n last p
pick_unique n last p j hl hj e = ground (arith, mod_wrap (last + 1 + j) (suc n))

pos-inj : (a b : ℕ) → ◌≡◌ {A = Result ℤ} (ok (pos a)) (ok (pos b)) → a ≡ b
pos-inj a b e = ground arith

-- Whichever of the n partitions was the last one, among any n calls in a row each partition is chosen
-- by exactly one call.
pub round_robin_fair :
    (n last p : ℕ)
    → last < suc n
    → p < suc n
    → (i : ℕ) × (i < suc n)
      × (nth_pick i (router_at n last) ≡ ok (pos p))
      × ((j : ℕ) → j < suc n → nth_pick j (router_at n last) ≡ ok (pos p) → j ≡ i)
round_robin_fair n last p hl hp = (
  turn n last p,
  turn-lt n last p hl hp,
  nth_pick_at n (turn n last p) last ∙ ap (λ t. ok (pos t)) (pick_turn n last p hl hp),
  λ j hj e.
      pick_unique n last p j hl hj
        (pos-inj ((last + 1 + j) % suc n) p (rw (← nth_pick_at n j last) e)),
)

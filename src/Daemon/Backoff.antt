-- ===== src/Daemon/Backoff.antt =====
-- src/daemon/backoff.rs. A duration is a number of nanoseconds; the jitter is a function on durations that the
-- caller of the model gives, as the source draws it at random.
use native.Mathlib.Numerals.{unary_clauses}
use jj_mesh.Prelude.{
  nat_ord, bool_ord, pair_ord, list_ord, option_ord, reverse_ord, ltb, if◌then◌else◌, ℕ, zero, suc,
  ◌+◌, ◌*◌, ◌^◌, ◌≤◌, min, ◌≡◌, refl, sym, ap, ◌∙◌, Option, none, some, List, [], ◌∷◌, map, arith,
}
use jj_mesh.Config.Membership.Peers.{peer_register}
use jj_mesh.Config.Membership.Repos.{repo_register}
use jj_mesh.Config.Claims.{claims_register}

pub record Backoff : Type 0 where
  pub floor : ℕ
  pub ceiling : ℕ
  pub current : ℕ

-- `Duration::MAX`, past which `current * 2` panics
abbrev pub max_duration : ℕ
max_duration = 18446744073709551615 * 1000000000 + 999999999

-- `Backoff::new`
abbrev pub new_backoff : ℕ → ℕ → Backoff
new_backoff lo hi = record { floor = lo; ceiling = hi; current = lo }

-- The delay and the backoff afterwards; nothing where `current * 2` overflows a duration
unfoldable pub next_delay : (ℕ → ℕ) → Backoff → Option (ℕ × Backoff)
next_delay jitter b =
    if ltb max_duration (b.current * 2)
    then none
    else some (jitter b.current, record b { current = min (b.current * 2) b.ceiling })

-- `Backoff::reset`
abbrev pub reset : Backoff → Backoff
reset b = record b { current = b.floor }

-- The first of some delays, and the others
abbrev follow : ℕ → Option (List ℕ × Backoff) → Option (List ℕ × Backoff)
follow delay none = none
follow delay (some (rest, last)) = some (delay ∷ rest, last)

-- `n` delays in a row, and the backoff at the end
unfoldable pub delays : (ℕ → ℕ) → ℕ → Backoff → Option (List ℕ × Backoff)
delays jitter zero b = some ([], b)
delays jitter (suc n) b = elim (next_delay jitter b) [
  | none ↦ none
  | some (delay, b') ↦ follow delay (delays jitter n b')
]

-- The base of delay number `k` after a reset: doubled each time, up to the ceiling
abbrev pub base : ℕ → ℕ → ℕ → ℕ
base lo hi k = min (lo * 2 ^ k) hi

abbrev pub from_index : ℕ → ℕ → List ℕ
from_index i zero = []
from_index i (suc n) = i ∷ from_index (suc i) n

capped_doubles : (p q hi : ℕ) → q ≡ p * 2 → min (min p hi * 2) hi ≡ min q hi
capped_doubles p q hi h = omega arith

pub base_doubles : (lo hi k : ℕ) → lo ≤ hi → min (base lo hi k * 2) hi ≡ base lo hi (suc k)
base_doubles lo hi k h =
    capped_doubles (lo * 2 ^ k) (lo * 2 ^ suc k) hi (simp unary_clauses (grind arith))

pub next_delay_ok :
    (jitter : ℕ → ℕ) (b : Backoff)
    → b.current * 2 ≤ max_duration
    → next_delay jitter b
      ≡ some (jitter b.current, record b { current = min (b.current * 2) b.ceiling })
unfolding next_delay
next_delay_ok jitter b h = ground arith

delays_at :
    (jitter : ℕ → ℕ) (lo hi i n : ℕ)
    → lo ≤ hi
    → hi * 2 ≤ max_duration
    → delays jitter n (record { floor = lo; ceiling = hi; current = base lo hi i })
      ≡ some (
        map (λ k. jitter (base lo hi k)) (from_index i n),
        record { floor = lo; ceiling = hi; current = base lo hi (i + n) },
      )
unfolding delays
delays_at jitter lo hi i zero h k =
    ap (λ j. some ([], record { floor = lo; ceiling = hi; current = base lo hi j })) (omega arith)
delays_at jitter lo hi i (suc n) h k =
    let b : Backoff = record { floor = lo; ceiling = hi; current = base lo hi i } in
    let later : i + suc n ≡ suc i + n = omega arith in
    let next =
      next_delay_ok jitter b (omega arith)
      ∙ ap (λ c. some (jitter (base lo hi i), record b { current = c })) (base_doubles lo hi i h) in
    rw (next, delays, delays_at jitter lo hi (suc i) n h k, later) refl

-- When the floor is at most the ceiling: after a reset the delays double from the floor up to the ceiling and stay there, each of
-- them jittered; the doubling never overflows when twice the ceiling is a duration.
delays_lem :
    (jitter : ℕ → ℕ) (b : Backoff) (n : ℕ)
    → b.floor ≤ b.ceiling
    → b.ceiling * 2 ≤ max_duration
    → delays jitter n (reset b)
      ≡ some (
        map (λ k. jitter (base b.floor b.ceiling k)) (from_index 0 n),
        record b { current = base b.floor b.ceiling n },
      )
delays_lem jitter b n h k =
    let start : base b.floor b.ceiling 0 ≡ b.floor = omega arith in
    ap (λ c. delays jitter n (record b { current = c })) (sym start)
    ∙ (delays_at jitter b.floor b.ceiling 0 n h k
        ∙ ap
            (λ j. some (
              map (λ i. jitter (base b.floor b.ceiling i)) (from_index 0 n),
              record b { current = base b.floor b.ceiling j },
            ))
            (omega arith))

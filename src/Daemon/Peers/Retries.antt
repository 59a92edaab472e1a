-- ===== src/Daemon/Peers/Retries.antt =====
-- The lemmas on `run_rounds`.
use jj_mesh.Prelude.{
  Result, ok, err, Ord, nat_ord, bool_ord, pair_ord, list_ord, option_ord, reverse_ord, leb, length,
  All, ℕ, suc, ◌+◌, ◌*◌, ◌%◌, ◌≤◌, ◌<◌, min, ◌≡◌, refl, ap, true, false, none, some, List, [], ◌∷◌,
  arith,
}
use jj_mesh.Config.Name.{Text}
use jj_mesh.Config.Membership.Peers.{peer_register}
use jj_mesh.Config.Membership.Repos.{repo_register}
use jj_mesh.Config.Claims.{claims_register}
use jj_mesh.Daemon.Backoff.{base, base_doubles, next_delay_ok}
use jj_mesh.Daemon.Peers.Defs.{PeerState}
use jj_mesh.Daemon.Peers.Task.{
  backoff_min, backoff_max, stable_uptime, start_task, Established, wait_out, attempt,
  dropped_early, after_attempt, run_round, run_rounds, PeerTask, Round,
}

-- A task that failed `n` times since its last stable connection, and has to wait
pub record IsWaiting (n : ℕ) (task : PeerTask) : Type 0 where
  pub error : Text
  pub waits : task.failure ≡ some error
  pub failures : task.failures ≡ n % 4294967296
  pub backoff : task.backoff ≡ record {
    floor = backoff_min;
    ceiling = backoff_max;
    current = base backoff_min backoff_max n;
  }

-- In its next round a task waits, after `n` failures that count, and shows when it ends.
abbrev pub WaitsOut : Type 0 → ℕ → PeerTask → Type 0
WaitsOut C n task =
    (round : Round C)
    → (waited : PeerTask) × (error : Text) × (task.failure ≡ some error)
      × (wait_out round task
          ≡ some (
            waited,
            some (
                PeerState.backing_off (round.now + round.jitter (base backoff_min backoff_max n))
                  error),
          ))

waits_out : {C : Type 0} (n : ℕ) (task : PeerTask) → IsWaiting n task → WaitsOut C n task
unfolding wait_out
waits_out n task w round =
    let delay = next_delay_ok round.jitter task.backoff (rw w.backoff (omega arith)) in
    (
      record task {
        failures = (task.failures + 1) % 4294967296;
        failure = none;
        backoff = record (task.backoff) {
          current = min (task.backoff.current * 2) task.backoff.ceiling;
        };
      },
      w.error,
      w.waits,
      rw (w.waits, delay, w.backoff) refl,
    )

module _ {E C : Type 0} ⦃oe : Ord E⦄ (local peer : E) where
  unstable_end :
      (task : PeerTask) (round : Round C) (r : Result Text (Established C)) (n : ℕ)
      → round.uptime < stable_uptime
      → task.failures ≡ n % 4294967296
      → task.backoff ≡ record {
        floor = backoff_min;
        ceiling = backoff_max;
        current = base backoff_min backoff_max n;
      }
      → IsWaiting n (after_attempt round.uptime task r)
  unstable_end task round (err error) n h f b = record {
    error = error;
    waits = refl;
    failures = f;
    backoff = b;
  }
  unstable_end task round (ok conn) n h f b =
      let short : leb stable_uptime round.uptime ≡ false = ground arith in
      rw short (record { error = dropped_early; waits = refl; failures = f; backoff = b })

  unstable_round :
      (task : PeerTask) (round : Round C) (n : ℕ)
      → round.uptime < stable_uptime
      → IsWaiting n task
      → (next : PeerTask) × (run_round local peer task round ≡ some next) × IsWaiting (suc n) next
  unfolding run_round wait_out
  unstable_round task round n h w =
      let delay = next_delay_ok round.jitter task.backoff (rw w.backoff (omega arith)) in
      let waited : PeerTask = record task {
        failures = (task.failures + 1) % 4294967296;
        failure = none;
        backoff = record (task.backoff) {
          current = min (task.backoff.current * 2) task.backoff.ceiling;
        };
      } in
      let shown = PeerState.backing_off (round.now + round.jitter task.backoff.current) w.error in
      let r = attempt local peer round (some shown) in
      (
        after_attempt round.uptime waited r,
        rw (w.waits, delay) refl,
        unstable_end waited round r (suc n) h (omega (arith, w.failures)) (
            rw w.backoff (
              ap (λ c. record { floor = backoff_min; ceiling = backoff_max; current = c })
                (base_doubles backoff_min backoff_max n (omega arith)))),
      )

  rounds_lem :
      (task : PeerTask) (rounds : List (Round C)) (n : ℕ)
      → All (λ r. r.uptime < stable_uptime) rounds
      → IsWaiting n task
      → (last : PeerTask) × (run_rounds local peer task rounds ≡ some last)
        × IsWaiting (n + length rounds) last
  unfolding run_rounds
  rounds_lem task [] n h w = let e : n ≡ n + 0 = omega arith in (task, refl, rw (← e) w)
  rounds_lem task (r ∷ rs) n h w =
      let (mid, e, v) = unstable_round task r n (h.0) w in
      let (last, f, z) = rounds_lem mid rs (suc n) (h.1) v in
      let moved : suc n + length rs ≡ n + suc (length rs) = omega arith in
      (last, rw e f, rw (← moved) z)

  first_round :
      (round : Round C)
      → round.uptime < stable_uptime
      → (last : PeerTask) × (run_round local peer start_task round ≡ some last) × IsWaiting 0 last
  unfolding run_round wait_out
  first_round round h =
      let r = attempt local peer round none in
      (after_attempt round.uptime start_task r, refl, unstable_end start_task round r 0 h refl refl)

  many_rounds :
      (first : Round C) (rounds : List (Round C))
      → All (λ r. r.uptime < stable_uptime) (first ∷ rounds)
      → (last : PeerTask) × (run_rounds local peer start_task (first ∷ rounds) ≡ some last)
        × IsWaiting (length rounds) last
  unfolding run_rounds
  many_rounds first rounds h =
      let (mid, a, w) = first_round first (h.0) in
      let (last, b, v) = rounds_lem mid rounds 0 (h.1) w in
      let counted : 0 + length rounds ≡ length rounds = omega arith in
      (last, rw a b, rw (← counted) v)

  good_round :
      (n : ℕ) (last : PeerTask) (good : Round C) (conn : Established C)
      → IsWaiting n last
      → ((shown : PeerState C) → attempt local peer good (some shown) ≡ ok conn)
      → stable_uptime ≤ good.uptime
      → run_round local peer last good ≡ some start_task
  unfolding run_round wait_out
  good_round n last good conn v e long =
      let delay = next_delay_ok good.jitter last.backoff (rw v.backoff (omega arith)) in
      let shown : PeerState C =
        PeerState.backing_off (good.now + good.jitter last.backoff.current) v.error in
      let held : leb stable_uptime good.uptime ≡ true = ground arith in
      rw (v.waits, delay, e shown, held, v.backoff) refl

  -- When no connection of the first rounds of a task is held for ten seconds, none of them panics, the failures
  -- before the last one are counted, and in the next round the task waits, and shows that it waits, for the jittered
  -- delay that doubles with each of these failures, up to the ceiling; a connection that is then held for ten seconds
  -- clears the failures and the backoff, and nothing is waited out.
  pub run_rounds_lem :
      (first : Round C) (rounds : List (Round C)) (good : Round C) (conn : Established C)
      → All (λ r. r.uptime < stable_uptime) (first ∷ rounds)
      → ((shown : PeerState C) → attempt local peer good (some shown) ≡ ok conn)
      → stable_uptime ≤ good.uptime
      → (last : PeerTask) × (run_rounds local peer start_task (first ∷ rounds) ≡ some last)
        × IsWaiting (length rounds) last
        × WaitsOut C (length rounds) last
        × (run_round local peer last good ≡ some start_task)
  run_rounds_lem first rounds good conn h e long =
      let (last, ran, waiting) = many_rounds first rounds h in
      (
        last,
        ran,
        waiting,
        waits_out (length rounds) last waiting,
        good_round (length rounds) last good conn waiting e long,
      )

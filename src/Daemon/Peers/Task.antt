-- ===== src/Daemon/Peers/Task.antt =====
-- `run_peer` and `establish`. What the network and the clock do in a round is an argument; the counter of the
-- failures wraps as a `u32` does in a release build.
use jj_mesh.Prelude.{
  Result, ok, err, gtb, Ord, nat_ord, bool_ord, pair_ord, list_ord, option_ord, reverse_ord, leb,
  if◌then◌else◌, ℕ, ◌+◌, ◌*◌, ◌%◌, Bool, true, false, Option, none, some, List, [], ◌∷◌,
}
use jj_mesh.Config.Name.{Text}
use jj_mesh.Config.Membership.Peers.{peer_register}
use jj_mesh.Config.Membership.Repos.{repo_register}
use jj_mesh.Config.Claims.{claims_register}
use jj_mesh.Daemon.Backoff.{new_backoff, next_delay, reset, Backoff}
use jj_mesh.Daemon.Peers.Defs.{PeerState}

-- Durations in nanoseconds
abbrev pub seconds : ℕ → ℕ
seconds n = n * 1000000000

abbrev pub backoff_min : ℕ
backoff_min = 1000000000

abbrev pub backoff_max : ℕ
backoff_max = 60000000000

abbrev pub stable_uptime : ℕ
stable_uptime = 10000000000

-- The variables of the loop
pub record PeerTask : Type 0 where
  pub backoff : Backoff
  pub failures : ℕ
  pub failure : Option Text
  pub unreachable : Bool

abbrev pub start_task : PeerTask
start_task = record {
  backoff = new_backoff backoff_min backoff_max;
  failures = 0;
  failure = none;
  unreachable = false;
}

-- What ends first while a connection is established: the own dial, or an inbound connection
pub data Landing (C : Type 0) : Type 0 where
  dial_done : C → Landing C
  dial_failed : Text → Landing C
  inbound_first : C → Landing C

-- What the environment does in one round: the time and the jitter, an inbound connection during the wait, what
-- lands after the dial, the result of that dial, and how long a connection is held
pub record Round (C : Type 0) : Type 0 where
  pub now : ℕ
  pub jitter : ℕ → ℕ
  pub adopted : Option C
  pub landing : Landing C
  pub dialed : Result Text C
  pub uptime : ℕ

-- A connection, and whether it is outbound
abbrev pub Established : Type 0 → Type 0
Established C = C × Bool

abbrev pub by_dial : {C : Type 0} → Result Text C → Result Text (Established C)
by_dial (ok conn) = ok (conn, true)
by_dial (err error) = err error

abbrev pub by_landing : {C : Type 0} → Landing C → Result Text (Established C)
by_landing (dial_done conn) = ok (conn, true)
by_landing (dial_failed error) = err error
by_landing (inbound_first conn) = ok (conn, false)

-- `establish`: the lower id waits for its own dial, the higher id takes what lands first.
unfoldable pub establish :
    {E C : Type 0} ⦃oe : Ord E⦄ → E → E → Round C → Result Text (Established C)
establish local peer round =
    if gtb peer local then by_dial round.dialed else by_landing round.landing

-- The wait at the start of a round: the variables after it and the state that is shown, or a panic
abbrev pub delayed :
    {C : Type 0}
    → Round C
    → PeerTask
    → Text
    → Option (ℕ × Backoff)
    → Option (PeerTask × Option (PeerState C))
delayed round task error none = none
delayed round task error (some (delay, backoff)) = some (
  record task { failures = (task.failures + 1) % 4294967296; failure = none; backoff = backoff },
  some (PeerState.backing_off (round.now + delay) error),
)

abbrev pub wait_for :
    {C : Type 0} → Round C → PeerTask → Option Text → Option (PeerTask × Option (PeerState C))
wait_for round task none = some (task, none)
wait_for round task (some error) = delayed round task error (next_delay round.jitter task.backoff)

unfoldable pub wait_out :
    {C : Type 0} → Round C → PeerTask → Option (PeerTask × Option (PeerState C))
wait_out round task = wait_for round task task.failure

-- Only a task that waited can adopt an inbound connection.
abbrev pub attempt :
    {E C : Type 0} ⦃oe : Ord E⦄
    → E
    → E
    → Round C
    → Option (PeerState C)
    → Result Text (Established C)
attempt local peer round none = establish local peer round
attempt local peer round (some shown) = elim round.adopted [
  | some conn ↦ ok (conn, false)
  | none ↦ establish local peer round
]

-- "connection dropped right after connecting"
unfoldable pub dropped_early : Text
dropped_early =
    b'c' ∷ b'o' ∷ b'n' ∷ b'n' ∷ b'e' ∷ b'c' ∷ b't' ∷ b'i' ∷ b'o' ∷ b'n' ∷ b' ' ∷ b'd' ∷ b'r' ∷ b'o'
    ∷ b'p' ∷ b'p' ∷ b'e' ∷ b'd' ∷ b' ' ∷ b'r' ∷ b'i' ∷ b'g' ∷ b'h' ∷ b't' ∷ b' ' ∷ b'a' ∷ b'f'
    ∷ b't' ∷ b'e' ∷ b'r' ∷ b' ' ∷ b'c' ∷ b'o' ∷ b'n' ∷ b'n' ∷ b'e' ∷ b'c' ∷ b't' ∷ b'i' ∷ b'n'
    ∷ b'g' ∷ []

-- The end of a round, by whether the connection was held long enough
abbrev pub after_attempt : {C : Type 0} → ℕ → PeerTask → Result Text (Established C) → PeerTask
after_attempt uptime task (err error) = record task { unreachable = true; failure = some error }
after_attempt uptime task (ok conn) =
    if leb stable_uptime uptime
    then record task { unreachable = false; backoff = reset task.backoff; failures = 0 }
    else record task { unreachable = false; failure = some dropped_early }

abbrev pub then_attempt :
    {E C : Type 0} ⦃oe : Ord E⦄
    → E
    → E
    → Round C
    → Option (PeerTask × Option (PeerState C))
    → Option PeerTask
then_attempt local peer round none = none
then_attempt local peer round (some (task, shown)) =
    some (after_attempt round.uptime task (attempt local peer round shown))

-- One round of the loop
unfoldable pub run_round :
    {E C : Type 0} ⦃oe : Ord E⦄ → E → E → PeerTask → Round C → Option PeerTask
run_round local peer task round = then_attempt local peer round (wait_out round task)

abbrev pub then_rounds : (PeerTask → Option PeerTask) → Option PeerTask → Option PeerTask
then_rounds rest none = none
then_rounds rest (some task) = rest task

-- The rounds of a task, in order
unfoldable pub run_rounds :
    {E C : Type 0} ⦃oe : Ord E⦄ → E → E → PeerTask → List (Round C) → Option PeerTask
run_rounds local peer task [] = some task
run_rounds local peer task (r ∷ rs) =
    then_rounds (λ t. run_rounds local peer t rs) (run_round local peer task r)

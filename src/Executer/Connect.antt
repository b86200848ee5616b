-- ===== src/Executer/Connect.antt =====
-- `vsock_connect` tries five times, sleeps at most 31 seconds, and leaves a socket open exactly when it has
-- connected.
use aws_nitro_enclaves_cli.Common.{ℕ, zero, suc, ◌+◌, ◌^◌, ◌≤◌, ◌≡◌, List, [], ◌∷◌, arith, length}
use native.Mathlib.Nat.{pow-suc}
use aws_nitro_enclaves_cli.Executer.{Outcome, done}
use aws_nitro_enclaves_cli.Executer.Process.{Attempt, connects, no_socket, refuses, Process}
use aws_nitro_enclaves_cli.Executer.Client.{attempt_connect, vsock_connect}

-- The sockets that a call has opened and left open.
abbrev left_open {ℓ} : {A : Type ℓ} → Outcome A → ℕ
left_open (done _) = 1
left_open _ = 0

pow_le : (i n : ℕ) → 2 ^ i ≤ 2 ^ (i + n)
pow_le i zero = let e : i + 0 ≡ i = omega arith in rw e (omega arith)
pow_le i (suc n) =
    let e : i + suc n ≡ suc (i + n) = omega arith in
    rw e (omega (arith, pow_le i n, pow-suc 2 (i + n)))

attempt_connect-bounds :
    (left i last : ℕ) (attempts : List Attempt) (p : Process)
    → let (result, p') = attempt_connect left i last attempts p in
      (p.slept ≤ p'.slept)
      × (p'.slept + 2 ^ i ≤ p.slept + 2 ^ (i + left))
      × (p'.open_sockets ≡ p.open_sockets + left_open result)
      × (length attempts ≤ length p'.attempts + left)
unfolding attempt_connect
attempt_connect-bounds zero i last attempts p =
    let e : i + 0 ≡ i = omega arith in rw e (omega arith, omega arith, omega arith, omega arith)
attempt_connect-bounds (suc left) i last [] p =
    (omega arith, omega (arith, pow_le i (suc left)), omega arith, omega arith)
attempt_connect-bounds (suc left) i last (connects ∷ attempts) p =
    (omega arith, omega (arith, pow_le i (suc left)), omega arith, omega arith)
attempt_connect-bounds (suc left) i last (no_socket e ∷ attempts) p =
    (omega arith, omega (arith, pow_le i (suc left)), omega arith, omega arith)
attempt_connect-bounds (suc left) i last (refuses e ∷ attempts) p =
    let (grows, sleeps, sockets, takes) =
      attempt_connect-bounds left (suc i) e attempts (record p { slept = p.slept + 2 ^ i }) in
    let total : suc i + left ≡ i + suc left = omega arith in
    (
      omega (arith, grows),
      omega (arith, rw total at sleeps, pow-suc 2 i),
      sockets,
      omega (arith, takes),
    )

-- Whatever `vsock_connect` is answered, it sleeps at most 31 seconds, takes at most five answers, and leaves one socket more open when it is done and none otherwise.
pub vsock_connect-bounds :
    (p : Process)
    → let (result, p') = vsock_connect p in
      (p.slept ≤ p'.slept)
      × (p'.slept ≤ p.slept + 31)
      × (p'.open_sockets ≡ p.open_sockets + left_open result)
      × (length p.attempts ≤ length p'.attempts + 5)
unfolding vsock_connect
vsock_connect-bounds p =
    let (grows, sleeps, sockets, takes) = attempt_connect-bounds 5 0 0 p.attempts p in
    (grows, omega (arith, sleeps), sockets, takes)

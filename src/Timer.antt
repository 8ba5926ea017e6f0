-- ===== src/Timer.antt =====
-- `CheckUserSceneCmd` (src/CheckUserSceneCmd.c): what the thread that runs every 200 ms does in a round.
use uubang_iot.Base.{
  ℕ, zero, suc, ◌+◌, ◌%◌, ◌≡◌, refl, ap, ◌∙◌, Bool, ◌&&◌, ◌||◌, ◌==◌, if◌then◌else◌, arith,
}

-- What a round does: `ConnectToTopServer`; `PingMallocConnList` and `freeConnMemWait4Free`;
-- `UpdateServerRunInfo`.
pub record Jobs : Type 0 where
  pub reconnects : Bool
  pub sweeps : Bool
  pub reports : Bool

-- A round, by whether `Send2TopServerTest` fails in it: the new `printCount`, and the jobs.
unfoldable pub timer_round : Bool → ℕ → ℕ × Jobs
timer_round send_fails print_count =
    let n = print_count + 1 in
    let m = if n == 100 then 0 else n in
    (
      m,
      record {
        reconnects = n == 100 && send_fails;
        sweeps = m == 10 || m == 23;
        reports = m == 24;
      },
    )

-- `printCount` after the first rounds, and the jobs of the round after them.
unfoldable pub count_after : (ℕ → Bool) → ℕ → ℕ
unfolding timer_round
count_after fails zero = 0
count_after fails (suc k) = (timer_round (fails k) (count_after fails k)).0

abbrev pub jobs_of : (ℕ → Bool) → ℕ → Jobs
jobs_of fails k = (timer_round (fails k) (count_after fails k)).1

wraps : (k : ℕ) → (if k % 100 + 1 == 100 then 0 else k % 100 + 1) ≡ (k + 1) % 100
wraps k = ground arith

is_last : (k : ℕ) → (k % 100 + 1 == 100) ≡ ((k + 1) % 100 == 0)
is_last k = ground arith

count_after-mod : (fails : ℕ → Bool) (k : ℕ) → count_after fails k ≡ k % 100
unfolding count_after
count_after-mod fails zero = refl
count_after-mod fails (suc k) =
    ap (λ n. if n + 1 == 100 then 0 else n + 1) (count_after-mod fails k)
    ∙ (wraps k ∙ ap (λ n. n % 100) {x = k + 1} {y = suc k} (omega arith))

-- The jobs, by whether the round is the last of a hundred, and by the new count.
abbrev jobs_at : Bool → Bool → ℕ → Jobs
jobs_at fails last m = record {
  reconnects = last && fails;
  sweeps = m == 10 || m == 23;
  reports = m == 24;
}

-- Whatever the link to the top server does, the connections are swept in the rounds 10 and 23 of each
-- hundred and in no other, the run of the server is reported in round 24, and the link is tested in
-- round 100, and made anew only if it failed then.
pub jobs_of_lem :
    (fails : ℕ → Bool) (k : ℕ)
    → let r = (k + 1) % 100 in
      jobs_of fails k
      ≡ record { reconnects = r == 0 && fails k; sweeps = r == 10 || r == 23; reports = r == 24 }
unfolding timer_round
jobs_of_lem fails k =
    ap (λ n. (timer_round (fails k) n).1) (count_after-mod fails k)
    ∙ (ap (λ m. jobs_at (fails k) (k % 100 + 1 == 100) m) (wraps k)
        ∙ ap (λ b. jobs_at (fails k) b ((k + 1) % 100)) (is_last k))

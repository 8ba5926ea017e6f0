-- ===== src/Sql/Account.antt =====
-- What a command owes while it runs: nodes of the pool to release and results to free. The rules say
-- how each call changes the debt, so that the proof of a command follows its code.
use uubang_iot.Base.{
  ℕ, zero, suc, ◌+◌, ◌≡◌, List, [], ◌∷◌, ◌++◌, Option, none, some, false, ◌==◌, if◌then◌else◌, Any,
}
use uubang_iot.SqlPool.{node_at}
use uubang_iot.SqlPool.Outcome.{IsOpen}
use uubang_iot.Sql.{Run, Event, World, Session, Ended, returns, crashes}

-- The nodes that are lent, the last first, and the number of results that are not freed.
abbrev pub Debt : Type 0
Debt = List ℕ × ℕ

abbrev pub give_back : ℕ → Debt → Option Debt
give_back j ([], n) = none
give_back j (k ∷ ks, n) = if k == j then some (ks, n) else none

-- A statement goes to the node that was lent last.
abbrev pub in_use : ℕ → Debt → Option Debt
in_use j ([], n) = none
in_use j (k ∷ ks, n) = if k == j then some (k ∷ ks, n) else none

abbrev pub free_one : Debt → Option Debt
free_one (ks, zero) = none
free_one (ks, suc n) = some (ks, n)

-- `none` for a statement or a release on a node that is not held, or for a result freed twice.
abbrev pub account : Event → Debt → Option Debt
account (Event.leased j) d = some (j ∷ d.0, d.1)
account (Event.released j) d = give_back j d
account (Event.asked j text) d = in_use j d
account Event.stored d = some (d.0, suc d.1)
account Event.result_freed d = free_one d
account (Event.sent_user p) d = some d
account (Event.sent_iot p) d = some d
account Event.close_socket d = some d
account (Event.sent_to j p) d = some d
account (Event.close_other j) d = some d
account (Event.sent_sto j) d = some d
account (Event.sent_top p) d = some d
account Event.locked_users d = some d
account Event.unlocked_users d = some d
account Event.locked_iots d = some d
account Event.unlocked_iots d = some d
account Event.added_local d = some d

abbrev pub settle : Event → Option Debt → Option Debt
settle e none = none
settle e (some d) = account e d

-- The debt after a log.
abbrev pub owed : List Event → Option Debt
owed [] = some ([], 0)
owed (e ∷ es) = settle e (owed es)

abbrev pub add_debt : Debt → Debt → Debt
add_debt d base = (d.0 ++ base.0, d.1 + base.1)

abbrev pub Holds : List ℕ → ℕ → Type 0
Holds ks k = Any (λ x. x ≡ k) ks

-- A session that owes d more than it owed at `s0`: each mutex that is not of a node lent since is as it
-- was, and those nodes were not locked.
pub record Owes (s0 : Session) (base d : Debt) (s : Session) : Type 0 where
  pub open_pool : IsOpen s.pool
  pub debt : owed s.log ≡ some (add_debt d base)
  pub untouched :
      (k : ℕ) → (Holds d.0 k → ⊥) → (node_at s.pool k).locked ≡ (node_at s0.pool k).locked
  pub was_free : (k : ℕ) → Holds d.0 k → (node_at s0.pool k).locked ≡ false

abbrev pub After : {A : Type 0} → (A → Session → Type 0) → Ended A × Session → Type 0
After P (returns a, s) = P a s
After P (crashes, s) = ⊥

-- The same for code that may crash where `mysql_store_result` has no result to give, and nowhere else.
abbrev pub Returns : {A : Type 0} → World → (A → Session → Type 0) → Ended A × Session → Type 0
Returns w P (returns a, s) = P a s
Returns w P (crashes, s) = w.store_ok s.log ≡ false

-- From a session that owes d, the code returns with the debt that `post` says of its result, or has no result of MySQL to read.
unfoldable pub Moves : {A : Type 0} → Debt → Run A → (A → Debt) → Type 0
Moves {A = A} d m post =
    (w : World) (s0 s : Session) (base : Debt)
    → Owes s0 base d s
    → Returns w (λ (a : A) s'. Owes s0 base (post a) s') (m w s)

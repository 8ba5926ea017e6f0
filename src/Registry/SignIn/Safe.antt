-- ===== src/Registry/SignIn/Safe.antt =====
-- The memory of the nodes of the online lists, over a sign-in.
use uubang_iot.Base.{ℕ, ◌≡◌, ◌≢◌, ◌⊎◌, List, [], ◌∷◌, ◌++◌, Option, some, All}
use uubang_iot.Registry.{UserNode, UserList, Heads}
use uubang_iot.Registry.Online.Delete.{IsSafe, Apart, Distinct}

-- The nodes are distinct and none of them has been freed.
abbrev pub IsSound : UserList → Type 0
IsSound l = Distinct l.nodes × IsSafe l

-- Memory that no node of the list has and that was not freed from it.
abbrev pub IsNew : ℕ → UserList → Type 0
IsNew p l = Apart p l.nodes × All (λ q. p ≢ q) l.freed

-- The session of the name, if there is one, is the first node or the last.
abbrev pub AtEnd : List ℕ → List UserNode → Type 0
AtEnd id us =
    (pre : List UserNode) (u : UserNode) (post : List UserNode)
    → us ≡ pre ++ (u ∷ post)
    → id ≡ u.user_id
    → (pre ≡ []) ⊎ (post ≡ [])

-- What the online lists, `malloc` and the name have to satisfy.
abbrev pub AreSound : Heads → Type 0
AreSound h = IsSound h.online_user × IsSound h.online_iot

abbrev pub GivesNew : (ℕ → Option ℕ) → Heads → Type 0
GivesNew malloc h = (k p : ℕ) → malloc k ≡ some p → IsNew p h.online_user × IsNew p h.online_iot

-- ===== src/Registration/Refresh.antt =====
-- The list of registered users after new ones are fetched: by falling keys.
use uubang_iot.Base.{ℕ, ◌≡◌, ◌<◌, List, [], ◌∷◌, Option, none, some, false}
use uubang_iot.Talk.{atoi}
use uubang_iot.Registry.{UserNode, is_iot_id}
use uubang_iot.Sql.{Row, column}

abbrev pub row_key : Row → ℕ
row_key row = atoi (column row 0)

-- What `ORDER BY id ASC` and `id > k` say of the rows; the names are those of users.
abbrev pub Rising : ℕ → List Row → Type 0
Rising k [] = Unit
Rising k (row ∷ rows) =
    (k < row_key row) × (is_iot_id (column row 1) ≡ false) × Rising (row_key row) rows

abbrev pub last_key : ℕ → List Row → ℕ
last_key k [] = k
last_key k (row ∷ rows) = last_key (row_key row) rows

-- Keys that fall from below k.
abbrev pub Falling : ℕ → List UserNode → Type 0
Falling k [] = Unit
Falling k (u ∷ us) = (u.userkey_id < k) × Falling u.userkey_id us

-- What a node, and a row, say of a user: key, name, password and `info`.
abbrev pub Account : Type 0
Account = ℕ × List ℕ × List ℕ × List ℕ

abbrev pub account_of : UserNode → Account
account_of u = (u.userkey_id, u.user_id, u.user_password, u.info)

abbrev pub row_account : Row → Account
row_account row = (row_key row, column row 1, column row 3, column row 4)

-- The rows in front, the last one first.
abbrev pub newest_first : List Row → List Account → List Account
newest_first [] xs = xs
newest_first (row ∷ rows) xs = newest_first rows (row_account row ∷ xs)

abbrev pub head_key : List UserNode → Option ℕ
head_key [] = none
head_key (u ∷ us) = some u.userkey_id

-- The key of the last row, if there is a row.
abbrev pub latest : Option ℕ → List Row → Option ℕ
latest k [] = k
latest k (row ∷ rows) = latest (some (row_key row)) rows

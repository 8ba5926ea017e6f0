-- ===== src/Sql/Rules.antt =====
-- How each call of a command changes what the command owes.
use uubang_iot.Base.{
  ℕ, zero, suc, ◌+◌, ◌≡◌, refl, ap, sym, subst, ◌∙◌, ◌⊎◌, inl, inr, List, [], ◌∷◌, ◌++◌, Option,
  none, some, Bool, true, false, if◌then◌else◌, arith, ℕ_discrete, get_or, set, get_or-set_ne,
  Bool-cases,
}
use uubang_iot.SqlPool.{SqlPool, SqlNode, node_at, release_node, stray}
use uubang_iot.SqlPool.Outcome.{IsOpen}
use uubang_iot.SqlPool.Search.{Gets}
use uubang_iot.SqlPool.Open.{get_db_connect-IsOpen, release_node-IsOpen}
use uubang_iot.Sql.{
  Run, Row, Reply, Event, World, Session, Ended, UserPacket, IotPacket, pure, note, after, ◌>>=◌,
  ◌>>◌, got, get_node, release, query, on_some, on_reply, registered, failed, answered, returns,
  crashes, with_lease, send_user, send_iot, next_seq_num, store_result,
}
use uubang_iot.Sql.Account.{Debt, account, settle, add_debt, Holds, Owes, Returns, Moves, free_one}

module _ {A : Type 0} (d : Debt) where
  pub Moves-pure : (a : A) → Moves d (pure a) (λ r. d)
  unfolding Moves
  Moves-pure a w s0 s base o = o

  pub Moves-if :
      (b : Bool) (m k : Run A) (post : A → Debt)
      → Moves d m post
      → Moves d k post
      → Moves d (if b then m else k) post
  unfolding Moves
  Moves-if true m k post h g = h
  Moves-if false m k post h g = g

  -- The same, with the test known in each branch.
  pub Moves-cond :
      (b : Bool) (m k : Run A) (post : A → Debt)
      → (b ≡ true → Moves d m post)
      → (b ≡ false → Moves d k post)
      → Moves d (if b then m else k) post
  Moves-cond true m k post h g = h refl
  Moves-cond false m k post h g = g refl

  pub Moves-on_reply :
      (r : Reply) (bad : List ℕ → Run A) (good : ℕ → List Row → Run A) (post : A → Debt)
      → ((e : List ℕ) → Moves d (bad e) post)
      → ((n : ℕ) (rows : List Row) → Moves d (good n rows) post)
      → Moves d (on_reply r bad good) post
  unfolding Moves
  Moves-on_reply (failed e) bad good post h k = h e
  Moves-on_reply (answered n rows) bad good post h k = k n rows

module _ {A B : Type 0} (d : Debt) where
  Moves-after :
      (f : A → Run B) (mid : A → Debt) (post : B → Debt)
      → ((a : A) → Moves (mid a) (f a) post)
      → (w : World) (s0 : Session) (base : Debt) (r : Ended A × Session)
      → Returns w (λ (a : A) s'. Owes s0 base (mid a) s') r
      → Returns w (λ (b : B) s'. Owes s0 base (post b) s') (after f w r)
  unfolding Moves
  Moves-after f mid post k w s0 base (returns a, s) o = k a w s0 s base o
  Moves-after f mid post k w s0 base (crashes, s) o = o

  pub Moves->>= :
      (m : Run A) (f : A → Run B) (mid : A → Debt) (post : B → Debt)
      → Moves d m mid
      → ((a : A) → Moves (mid a) (f a) post)
      → Moves d (m >>= f) post
  unfolding Moves
  Moves->>= m f mid post h k w s0 s base o =
      Moves-after f mid post k w s0 base (m w s) (h w s0 s base o)

  pub Moves-on_some :
      (o : Option A) (m : Run B) (f : A → Run B) (post : B → Debt)
      → Moves d m post
      → ((a : A) → Moves d (f a) post)
      → Moves d (on_some o m f) post
  unfolding Moves
  Moves-on_some none m f post h k = h
  Moves-on_some (some a) m f post h k = k a

pub Moves->> :
    {A B : Type 0} (d mid : Debt) (m : Run A) (k : Run B) (post : B → Debt)
    → Moves d m (λ r. mid)
    → Moves mid k post
    → Moves d (m >> k) post
unfolding Moves
Moves->> d mid m k post h g = Moves->>= d m (λ r. k) (λ r. mid) post h λ r. g

-- An event that changes the debt only.
Owes-note :
    (s0 s : Session) (base d d' : Debt) (e : Event)
    → account e (add_debt d base) ≡ some (add_debt d' base)
    → d.0 ≡ d'.0
    → Owes s0 base d s
    → Owes s0 base d' (record s { log = e ∷ s.log })
Owes-note s0 s base d d' e h same o = record {
  open_pool = o.open_pool;
  debt = ap (settle e) o.debt ∙ h;
  untouched = λ k free. o.untouched k (λ held. free (subst (λ ks. Holds ks k) same held));
  was_free = λ k held. o.was_free k (subst (λ ks. Holds ks k) (sym same) held);
}

pub Moves-note :
    (d d' : Debt) (e : Event)
    → ((base : Debt) → account e (add_debt d base) ≡ some (add_debt d' base))
    → d.0 ≡ d'.0
    → Moves d (note e) (λ _. d')
unfolding Moves
Moves-note d d' e h same w s0 s base o = Owes-note s0 s base d d' e (h base) same o

pub Moves-registered :
    (d : Debt) (n : ℕ) (user_id : Option (List ℕ)) (id : ℕ)
    → Moves d (registered n user_id id) (λ _. d)
unfolding Moves
Moves-registered d n user_id id w s0 s base o = o

pub Moves-send_user : (d : Debt) (p : UserPacket) → Moves d (send_user p) (λ _. d)
unfolding send_user Moves
Moves-send_user d p w s0 s base o = Owes-note s0 s base d d (Event.sent_user p) refl refl o

pub Moves-send_iot : (d : Debt) (p : IotPacket) → Moves d (send_iot p) (λ _. d)
unfolding send_iot Moves
Moves-send_iot d p w s0 s base o = Owes-note s0 s base d d (Event.sent_iot p) refl refl o

pub Moves-next_seq_num : (d : Debt) → Moves d next_seq_num (λ _. d)
unfolding next_seq_num Moves
Moves-next_seq_num d w s0 s base o = record {
  open_pool = o.open_pool;
  debt = o.debt;
  untouched = o.untouched;
  was_free = o.was_free;
}

module _ (ks : List ℕ) (n j : ℕ) where
  pub Moves-query : (text : List ℕ) → Moves (j ∷ ks, n) (query j text) (λ _. (j ∷ ks, n))
  unfolding query Moves
  Moves-query text w s0 s base o =
      Owes-note s0 s base (j ∷ ks, n) (j ∷ ks, n) (Event.asked j text) (ground arith) refl o

-- The debt once `get_db_connect` has returned.
abbrev pub with_node_of : Debt → Option ℕ → Debt
with_node_of d none = d
with_node_of d (some j) = (j ∷ d.0, d.1)

Holds-dec : (ks : List ℕ) (k : ℕ) → Holds ks k ⊎ (Holds ks k → ⊥)
Holds-dec [] k = inr λ h. h
Holds-dec (x ∷ ks) k = elim (ℕ_discrete x k) [
  | yes e ↦ inl (inl e)
  | no ne ↦ elim (Holds-dec ks k) [
    | inl h ↦ inl (inr h)
    | inr free ↦ inr λ h. elim h [ inl e ↦ ne e | inr g ↦ free g ]
  ]
]

Owes-lease :
    (w : World) (s0 s : Session) (base d : Debt) (r : Option ℕ × SqlPool)
    → Gets (w.db s.log) s.pool r
    → IsOpen r.1
    → Owes s0 base d s
    → Owes s0 base (with_node_of d r.0) (with_lease s r)
Owes-lease w s0 s base d (none, sp) (unusable, held, mutexes) open' o = record {
  open_pool = open';
  debt = o.debt;
  untouched = λ k free. mutexes k ∙ o.untouched k free;
  was_free = o.was_free;
}
Owes-lease w s0 s base d (some j, sp) (below, can, lent, held, mutexes) open' o = record {
  open_pool = open';
  debt = ap (settle (Event.leased j)) o.debt;
  untouched = λ k free. mutexes k (λ e. free (inl e)) ∙ o.untouched k (λ h. free (inr h));
  was_free = λ k h. elim (Holds-dec d.0 k) [
    | inl mine ↦ o.was_free k mine
    | inr other ↦ elim h [
      | inr mine ↦ o.was_free k mine
      | inl e ↦
          subst (λ x. (node_at s0.pool x).locked ≡ false) e
            (sym (o.untouched j (subst (λ x. Holds d.0 x → ⊥) (sym e) other)) ∙ ground (arith, can))
    ]
  ];
}

pub Moves-get_node : (d : Debt) → Moves d get_node (with_node_of d)
unfolding get_node Moves
Moves-get_node d w s0 s base o =
    let (r, e, g, open') = get_db_connect-IsOpen (w.db s.log) (w.random s.log) s.pool o.open_pool in
    subst (λ x. Returns w (λ a s'. Owes s0 base (with_node_of d a) s') (got s x)) (sym e)
      (Owes-lease w s0 s base d r g open' o)

get_or-set_same :
    (xs : List SqlNode) (i : ℕ) (v : SqlNode)
    → v.locked ≡ false
    → (get_or (set xs i v) i stray).locked ≡ false
get_or-set_same [] i v h = refl
get_or-set_same (x ∷ xs) zero v h = h
get_or-set_same (x ∷ xs) (suc i) v h = get_or-set_same xs i v h

pub Moves-release : (ks : List ℕ) (n j : ℕ) → Moves (j ∷ ks, n) (release j) (λ _. (ks, n))
unfolding release release_node Moves
Moves-release ks n j w s0 s base o = record {
  open_pool = release_node-IsOpen s.pool j o.open_pool;
  debt = ap (settle (Event.released j)) o.debt ∙ ground arith;
  untouched = λ k free. elim (ℕ_discrete j k) [
    | yes e ↦
        subst (λ x. (node_at (release_node s.pool j) x).locked ≡ (node_at s0.pool x).locked) e
          (get_or-set_same s.pool.sql_pool j _ refl ∙ sym (o.was_free j (inl refl)))
    | no ne ↦
        ap (λ (x : SqlNode). x.locked) (get_or-set_ne s.pool.sql_pool j k _ stray ne)
        ∙ o.untouched k (λ h. elim h [ inl e ↦ ne e | inr g ↦ free g ])
  ];
  was_free = λ k h. o.was_free k (inr h);
}

suc_debt :
    (ks : List ℕ) (n : ℕ) (base : Debt)
    → add_debt (ks, suc n) base ≡ (ks ++ base.0, suc (n + base.1))
suc_debt ks n base = ap (λ x. (ks ++ base.0, x)) (omega arith)

pub Moves-result_freed :
    (ks : List ℕ) (n : ℕ) → Moves (ks, suc n) (note Event.result_freed) (λ r. (ks, n))
Moves-result_freed ks n =
    Moves-note (ks, suc n) (ks, n) Event.result_freed (λ base. ap free_one (suc_debt ks n base))
      refl

pub Moves-store_result : (ks : List ℕ) (n : ℕ) → Moves (ks, n) store_result (λ r. (ks, suc n))
unfolding store_result Moves
Moves-store_result ks n w s0 s base o = elim (Bool-cases (w.store_ok s.log)) [
  | inl good ↦ rw good (
      Owes-note s0 s base (ks, n) (ks, suc n) Event.stored (ap some (sym (suc_debt ks n base))) refl
        o)
  | inr bad ↦ rw bad bad
]

-- ===== src/Iot/Numbers/Rules.antt =====
-- Code that keeps the sequence numbers in order: the calls that the commands are made of.
use uubang_iot.Base.{
  ℕ, ◌+◌, ◌≡◌, ◌<◌, refl, ap, sym, subst, inl, inr, List, ◌∷◌, ◌++◌, Option, none, some, Bool, true,
  false, ◌==◌, if◌then◌else◌, arith, All, Bool-cases,
}
use uubang_iot.Base.Int.{ℤ}
use uubang_iot.SqlPool.{SqlPool, get_db_connect}
use uubang_iot.Registry.{Client, UserNode, Heads}
use uubang_iot.Registry.Online.{addto_local}
use uubang_iot.Sql.{
  Cln, Run, Row, Reply, Event, World, Session, Ended, IotPacket, pure, crash, note, after, ◌>>=◌,
  got, get_node, release, query, on_some, on_reply, registered, failed, answered, returns, crashes,
  send_iot, next_seq_num, store_result,
}
use uubang_iot.Registration.{put_added, add_client, heads_now}
use uubang_iot.Iot.{send_op_back}
use uubang_iot.Iot.Relay.{send_op_to, send_via_top, online_iot_now}
use uubang_iot.Iot.Login.{sign_in_now}

-- A number from 1 to 127, which fits a `char`.
abbrev pub IsSeqNum : ℕ → Type 0
IsSeqNum n = (0 < n) × (n < 128)

abbrev pub IsGood : Event → Type 0
IsGood (Event.sent_iot p) = IsSeqNum p.seq_num
IsGood (Event.sent_to j p) = IsSeqNum p.seq_num
IsGood _ = Unit

-- A log that has grown from another by events that are good.
abbrev pub Grown : List Event → List Event → Type 0
Grown before log = (added : List Event) × (log ≡ added ++ before) × All IsGood added

one_more :
    {before log : List Event} → (e : Event) → IsGood e → Grown before log → Grown before (e ∷ log)
one_more e g (added, same, all) = (e ∷ added, ap (◌∷◌ e) same, (g, all))

-- The counter of the connection is below 127, and every packet that went to a device since a log had a
-- number from 1 to 127.
abbrev pub IsNumbered : List Event → Session → Type 0
IsNumbered before s = (s.seq_num < 127) × Grown before s.log

-- Code that keeps it so, also where it crashes.
unfoldable pub Keeps : {A : Type 0} → Run A → Type 0
Keeps m =
    (w : World) (before : List Event) (s : Session)
    → IsNumbered before s
    → IsNumbered before (m w s).1

module _ {A : Type 0} where
  pub Keeps-pure : (a : A) → Keeps (pure a)
  unfolding Keeps
  Keeps-pure a w before s h = h

  pub Keeps-if : (b : Bool) (m k : Run A) → Keeps m → Keeps k → Keeps (if b then m else k)
  Keeps-if true m k h g = h
  Keeps-if false m k h g = g

  pub Keeps-on_reply :
      (r : Reply) (bad : List ℕ → Run A) (good : ℕ → List Row → Run A)
      → ((e : List ℕ) → Keeps (bad e))
      → ((n : ℕ) (rows : List Row) → Keeps (good n rows))
      → Keeps (on_reply r bad good)
  Keeps-on_reply (failed e) bad good h g = h e
  Keeps-on_reply (answered n rows) bad good h g = g n rows

pub Keeps-crash : (A : Type 0) → Keeps (crash {A = A})
unfolding Keeps
Keeps-crash A w before s h = h

module _ {A B : Type 0} where
  pub Keeps->>= : (m : Run A) (f : A → Run B) → Keeps m → ((a : A) → Keeps (f a)) → Keeps (m >>= f)
  unfolding Keeps
  Keeps->>= m f h g w before s n = go (m w s) (h w before s n)
    where
      go : (r : Ended A × Session) → IsNumbered before r.1 → IsNumbered before (after f w r).1
      go (returns a, s') k = g a w before s' k
      go (crashes, s') k = k

  pub Keeps-on_some :
      (o : Option A) (m : Run B) (f : A → Run B)
      → Keeps m
      → ((a : A) → Keeps (f a))
      → Keeps (on_some o m f)
  Keeps-on_some none m f h g = h
  Keeps-on_some (some a) m f h g = g a

pub Keeps-note : (e : Event) → IsGood e → Keeps (note e)
unfolding Keeps
Keeps-note e g w before s h = (h.0, one_more e g h.1)

pub Keeps-get_node : Keeps get_node
unfolding Keeps get_node
Keeps-get_node w before s h = go (get_db_connect (w.db s.log) (w.random s.log) s.pool)
  where
    go : (r : Option (Option ℕ × SqlPool)) → IsNumbered before (got s r).1
    go none = h
    go (some (none, sp)) = h
    go (some (some j, sp)) = (h.0, one_more _ tt h.1)

pub Keeps-release : (j : ℕ) → Keeps (release j)
unfolding Keeps release
Keeps-release j w before s h = (h.0, one_more _ tt h.1)

pub Keeps-query : (j : ℕ) (text : List ℕ) → Keeps (query j text)
unfolding Keeps query
Keeps-query j text w before s h = (h.0, one_more _ tt h.1)

pub Keeps-store_result : Keeps store_result
unfolding Keeps store_result
Keeps-store_result w before s h = elim (Bool-cases (w.store_ok s.log)) [
  | inl good ↦ rw good (h.0, one_more _ tt h.1)
  | inr bad ↦ rw bad h
]

pub Keeps-registered : (n : ℕ) (name : Option (List ℕ)) (id : ℕ) → Keeps (registered n name id)
unfolding Keeps
Keeps-registered n name id w before s h = h

pub Keeps-heads_now : Keeps heads_now
unfolding Keeps
Keeps-heads_now w before s h = h

pub Keeps-online_iot_now : (id : ℕ) → Keeps (online_iot_now id)
unfolding Keeps
Keeps-online_iot_now id w before s h = h

pub Keeps-add_client : (a : Client) → Keeps (add_client a)
unfolding Keeps add_client
Keeps-add_client a w before s h = go (addto_local (w.malloc s.log) a s.heads)
  where
    go : (r : Option (ℤ × Heads)) → IsNumbered before (put_added s r).1
    go none = h
    go (some r) = (h.0, one_more _ tt h.1)

pub Keeps-sign_in_now : (b : Cln) → Keeps (sign_in_now b)
unfolding Keeps sign_in_now
Keeps-sign_in_now b w before s h = h

-- The counter after a number was taken, and the number.
pub taken : (n : ℕ) → n < 127 → IsSeqNum (n + 1) × ((if (n + 1) == 127 then 1 else n + 1) < 127)
taken n h = ((omega arith, omega arith), ground arith)

pub Keeps-send :
    {A : Type 0} (p : ℕ → IotPacket) (f : Bool → Run A)
    → ((n : ℕ) → (p n).seq_num ≡ n)
    → ((b : Bool) → Keeps (f b))
    → Keeps (next_seq_num >>= λ seq. send_iot (p seq) >>= f)
unfolding Keeps next_seq_num send_iot
Keeps-send p f same g w before s h =
    let (fits, below) = taken s.seq_num h.0 in
    g (w.send_ok s.log) w before _
      (below, one_more _ (subst IsSeqNum (sym (same (s.seq_num + 1))) fits) h.1)

pub Keeps-send_op_back : (code text : List ℕ) → Keeps (send_op_back code text)
unfolding send_op_back
Keeps-send_op_back code text =
    Keeps-send (λ n. record { op_code = code; seq_num = n; pay_load = text }) _ (λ n. refl)
      λ b. Keeps-if b _ _ (Keeps-pure tt) (Keeps-note Event.close_socket tt)

pub Keeps-send_op_to : (u : UserNode) (text : List ℕ) → Keeps (send_op_to u text)
unfolding Keeps send_op_to next_seq_num
Keeps-send_op_to u text w before s h =
    let (fits, below) = taken s.seq_num h.0 in
    elim (Bool-cases (w.send_ok s.log)) [
      | inl sent ↦ rw sent (below, one_more _ fits h.1)
      | inr lost ↦ rw lost (below, one_more _ tt (one_more _ fits h.1))
    ]

pub Keeps-send_via_top : (a : Cln) → Keeps (send_via_top a)
unfolding send_via_top
Keeps-send_via_top a = Keeps-note _ tt

pub ruleset keeping = (
  Keeps-pure, Keeps-crash, Keeps-if, Keeps-on_reply, Keeps->>=, Keeps-on_some, Keeps-note,
  Keeps-get_node, Keeps-release, Keeps-query, Keeps-store_result, Keeps-registered, Keeps-heads_now,
  Keeps-online_iot_now, Keeps-add_client, Keeps-sign_in_now, Keeps-send_op_back, Keeps-send_op_to,
  Keeps-send_via_top,
)

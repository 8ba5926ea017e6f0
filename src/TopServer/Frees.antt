-- ===== src/TopServer/Frees.antt =====
-- What becomes of the message from another server and of the session that it is about.
use uubang_iot.Base.{
  ℕ, ◌≡◌, ◌≢◌, ◌≤◌, refl, ap, subst, ◌⊎◌, inl, inr, List, ◌∷◌, ◌++◌, Option, none, some, true,
  false, if◌then◌else◌, Bool-cases, All, length, arith, ◌==◌, ◌∙◌, ℕ_discrete,
}
use uubang_iot.Registry.{Client, UserNode, Heads}
use uubang_iot.Registry.Find.{find_online_user_or_iot}
use uubang_iot.Registry.Find.Laws.{find_in-Found}
use uubang_iot.Registry.Online.{delete_out_user, delete_from}
use uubang_iot.Registry.SignIn.Laws.{nodes-drop}
use uubang_iot.Sql.{Cln, World, Session, Ended, Event, returns, pure, note, on_some, ◌>>=◌, ◌>>◌}
use uubang_iot.TopServer.{
  delete_session, Fate, freed, kept, top_sto, top_command, top_code, send_to_device,
  handle_top_server_msg,
}

-- How a sign-out ends: nobody of the name is online here, or u is the first of that name.
abbrev pub SignsOut : Cln → World → Session → Ended Fate × Session → Type 0
SignsOut a w s r =
    (All (λ v. a.talkto_id ≢ v.user_id) s.heads.online_user.nodes × (r ≡ (returns kept, s)))
    ⊎ ((pre : List UserNode) × (u : UserNode) × (post : List UserNode) × (s.heads.online_user.nodes
          ≡ pre ++ (u ∷ post))
        × All (λ v. a.talkto_id ≢ v.user_id) pre
        × (a.talkto_id ≡ u.user_id)
        × (((w.send_ok s.log ≡ true)
              × (r.0 ≡ returns freed)
              × (r.1.heads.online_user.nodes ≡ pre ++ post)
              × (r.1.heads.online_iot ≡ s.heads.online_iot)
              × (r.1.log ≡ Event.sent_sto u.user_socket ∷ s.log))
            ⊎ ((w.send_ok s.log ≡ false)
                × (r.0 ≡ returns kept)
                × (r.1.heads ≡ s.heads)
                × (r.1.log
                    ≡ Event.close_other u.user_socket ∷ (Event.sent_sto u.user_socket ∷ s.log)))))

user_deleted :
    (b : Client) (h : Heads)
    → 11 ≤ length b.user_id
    → let h' = (delete_out_user b h).1 in
      (h'.online_user ≡ (delete_from b h.online_user).1) × (h'.online_iot ≡ h.online_iot)
unfolding delete_out_user
user_deleted b h len = ground arith

module _ (a : Cln) (w : World) (s : Session) where
  top_sto-SignsOut : 11 ≤ length a.talkto_id → SignsOut a w s (top_sto a w s)
  unfolding top_sto delete_session find_online_user_or_iot
  top_sto-SignsOut len = elim ((find_in-Found s.heads.online_user a.talkto_id 0).0) [
    | inl (e, n) ↦ inl (n, rw e refl)
    | inr (pre, u, post, e, n, same, is) ↦
        inr (pre, u, post, e, n, same, sends pre u post e n same is)
  ]
    where
      sends :
          (pre : List UserNode) (u : UserNode) (post : List UserNode)
          → s.heads.online_user.nodes ≡ pre ++ (u ∷ post)
          → All (λ v. a.talkto_id ≢ v.user_id) pre
          → a.talkto_id ≡ u.user_id
          → find_online_user_or_iot 0 (some a.talkto_id) 0 s.heads ≡ some u
          → let r = top_sto a w s in
            ((w.send_ok s.log ≡ true)
              × (r.0 ≡ returns freed)
              × (r.1.heads.online_user.nodes ≡ pre ++ post)
              × (r.1.heads.online_iot ≡ s.heads.online_iot)
              × (r.1.log ≡ Event.sent_sto u.user_socket ∷ s.log))
            ⊎ ((w.send_ok s.log ≡ false)
                × (r.0 ≡ returns kept)
                × (r.1.heads ≡ s.heads)
                × (r.1.log
                    ≡ Event.close_other u.user_socket ∷ (Event.sent_sto u.user_socket ∷ s.log)))
      sends pre u post e n same is = elim (Bool-cases (w.send_ok s.log)) [
        | inl sent ↦
            let b : Client = record a.client { socket = 0; user_id = u.user_id } in
            let gone =
              user_deleted (record b { socket = u.user_socket }) s.heads
                (subst (λ id. 11 ≤ length id) same len) in
            let apart = subst (λ id. All (λ v. id ≢ v.user_id) pre) same n in
            let nodes = nodes-drop b s.heads.online_user pre post u e apart refl in
            inl (
              sent,
              rw (is, sent) refl,
              rw (is, sent) (ap (λ l. l.nodes) gone.0 ∙ nodes),
              rw (is, sent) gone.1,
              rw (is, sent) refl,
            )
        | inr lost ↦ inr (lost, rw (is, lost) refl, rw (is, lost) refl, rw (is, lost) refl)
      ]

  top_command_heads : (top_command a w s).1.heads ≡ s.heads
  unfolding top_command send_to_device
  top_command_heads = by_device (find_online_user_or_iot 10 (some a.talkto_id) 0 s.heads)
    where
      by_device :
          (o : Option UserNode)
          → (on_some o
              (pure kept)
              (λ u. send_to_device u a.data_text >>= λ sent.
                if sent then pure freed else note (Event.close_other u.user_socket) >> pure freed)
              w
              s).1.heads
            ≡ s.heads
      by_device none = refl
      by_device (some u) = elim (Bool-cases (w.send_ok s.log)) [
        | inl sent ↦ rw sent refl
        | inr lost ↦ rw lost refl
      ]

  other_heads :
      (code : ℕ)
      → code ≢ 70235
      → ((if code == 70235 then top_sto a else if code == 0 then top_command a else pure freed) w
          s).1.heads
        ≡ s.heads
  other_heads code n = elim (ℕ_discrete code 0) [
    | yes z ↦ rw z top_command_heads
    | no z ↦ ground arith
  ]

-- A message of another server, by its code. A sign-out for a name of at least 11 characters: with no online
-- user of this name nothing happens and the message is never freed. Otherwise the first one of the name
-- is told; if the packet goes out, exactly this session is taken out of the list, the devices stay, and
-- the message is freed; if it does not, the user's socket is closed, the lists stay, and the message is
-- never freed. No other code changes the lists.
pub handle_top_server_msg_lem :
    (a : Cln) (w : World) (s : Session)
    → 11 ≤ length a.talkto_id
    → ((top_code a.client.checkcode ≡ 70235) × SignsOut a w s (handle_top_server_msg a w s))
      ⊎ ((top_code a.client.checkcode ≢ 70235) × ((handle_top_server_msg a w s).1.heads ≡ s.heads))
unfolding handle_top_server_msg
handle_top_server_msg_lem a w s len = elim (ℕ_discrete (top_code a.client.checkcode) 70235) [
  | yes e ↦ inl (e, rw e (top_sto-SignsOut a w s len))
  | no n ↦ inr (n, other_heads a w s (top_code a.client.checkcode) n)
]

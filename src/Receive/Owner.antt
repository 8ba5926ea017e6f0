-- ===== src/Receive/Owner.antt =====
-- Who owns a request after a read, and which connections are served.
use uubang_iot.Base.{
  ℕ, ◌+◌, ◌≡◌, ◌≤◌, ◌<◌, subst, List, [], ◌∷◌, ◌++◌, true, false, ◌&&◌, ◌||◌, not, ◌==◌, ltb,
  if◌then◌else◌, arith, Bool-cases, ◌⊎◌, inl, inr,
}
use uubang_iot.Base.Bytes.{contains}
use uubang_iot.Receive.{
  Peer, Packet, Reaction, closes_socket, sends_oom, sends_upd, queues_request, frees_request,
  reads_again, faults, make_request, handshake, admit, receive, version,
}

abbrev queued_once : Reaction → ℕ
queued_once closes_socket = 0
queued_once sends_oom = 0
queued_once sends_upd = 0
queued_once queues_request = 1
queued_once frees_request = 0
queued_once reads_again = 0
queued_once faults = 0

abbrev freed_once : Reaction → ℕ
freed_once closes_socket = 0
freed_once sends_oom = 0
freed_once sends_upd = 0
freed_once queues_request = 0
freed_once frees_request = 1
freed_once reads_again = 0
freed_once faults = 0

abbrev pub times : (Reaction → ℕ) → List Reaction → ℕ
times w [] = 0
times w (x ∷ xs) = w x + times w xs

abbrev pub times_queued : List Reaction → ℕ
times_queued xs = times queued_once xs

abbrev pub times_freed : List Reaction → ℕ
times_freed xs = times freed_once xs

times-append :
    (w : Reaction → ℕ) (xs ys : List Reaction) → times w (xs ++ ys) ≡ times w xs + times w ys
times-append w [] ys = omega arith
times-append w (x ∷ xs) ys = omega (arith, times-append w xs ys)

module _ (p : Peer) (k : Packet) where
  make_request_neutral :
      (times_queued (make_request p k).1 ≡ 0)
      × (times_freed (make_request p k).1 ≡ 0)
      × ((make_request p k).0.tasks ≡ p.tasks)
  unfolding make_request
  make_request_neutral = ground arith

  handshake_neutral :
      (times_queued (handshake p k).1 ≡ 0)
      × (times_freed (handshake p k).1 ≡ 0)
      × ((handshake p k).0.tasks ≡ p.tasks)
  unfolding handshake
  handshake_neutral = ground arith

  admit_owner :
      ((admit p k).0.tasks ≡ p.tasks + times_queued (admit p k).1)
      × (times_queued (admit p k).1 + times_freed (admit p k).1 ≡ (if k.arg_conn then 1 else 0))
      × (p.tasks ≤ 120 → (admit p k).0.tasks ≤ 120)
  unfolding admit
  admit_owner = ground arith

-- What a read leaves of a connection with at most 120 requests in work: they stay at most 120 and
-- count the queued ones; and a request that was made is queued or freed, once and not both.
pub receive_owner :
    (p : Peer) (k : Packet)
    → p.tasks ≤ 120
    → let r = receive p k in
      (r.0.tasks ≤ 120)
      × (r.0.tasks ≡ p.tasks + times_queued r.1)
      × (times_queued r.1 + times_freed r.1 ≡ (
          if not (k.bytes_transferred == 0 || ltb 721 k.bytes_transferred) && k.arg_conn
          then 1
          else 0))
unfolding receive
receive_owner p k h = ground (
  arith,
  m,
  n,
  a,
  times-append queued_once made.1 (known.1 ++ admitted.1),
  times-append queued_once known.1 admitted.1,
  times-append freed_once made.1 (known.1 ++ admitted.1),
  times-append freed_once known.1 admitted.1,
)
  where
    made : Peer × List Reaction
    made = make_request p k

    known : Peer × List Reaction
    known = handshake made.0 k

    admitted : Peer × List Reaction
    admitted = admit known.0 k

    m : (times_queued made.1 ≡ 0) × (times_freed made.1 ≡ 0) × (made.0.tasks ≡ p.tasks)
    m = make_request_neutral p k

    n : (times_queued known.1 ≡ 0) × (times_freed known.1 ≡ 0) × (known.0.tasks ≡ made.0.tasks)
    n = handshake_neutral made.0 k

    a :
        (admitted.0.tasks ≡ known.0.tasks + times_queued admitted.1)
        × (times_queued admitted.1 + times_freed admitted.1 ≡ (if k.arg_conn then 1 else 0))
        × (known.0.tasks ≤ 120 → admitted.0.tasks ≤ 120)
    a = admit_owner known.0 k

module _ (p : Peer) (k : Packet) where
  made-verified :
      (make_request p k).0.verified ≡ true
      → k.arg_conn ≡ true
      → ((p.verified ≡ true) ⊎ ((10 < k.bytes_transferred) × (k.bytes_transferred ≤ 205)))
        × ((make_request p k).0.peer_code ≡ k.packet_code)
  unfolding make_request
  made-verified h m = ground arith

  made-code : k.arg_conn ≡ true → (make_request p k).0.peer_code ≡ k.packet_code
  unfolding make_request
  made-code m = ground arith

  known-verified :
      (handshake p k).0.verified ≡ true
      → (p.verified ≡ true)
        ⊎ ((contains p.peer_code (version b'6') ≡ true)
            ⊎ (contains p.peer_code (version b'7') ≡ true))
  unfolding handshake
  known-verified h = ground arith

  admit-verified :
      0 < times_queued (admit p k).1
      → (p.verified ≡ true) × (k.arg_conn ≡ true) × ((admit p k).0.verified ≡ true)
  unfolding admit
  admit-verified h = ground arith

-- A request goes to `talk` only from a connection that is verified: it was so before, or its packet
-- has the size of a device's, or the packet's code names one of the two versions that are served.
pub receive-verified :
    (p : Peer) (k : Packet)
    → 0 < times_queued (receive p k).1
    → ((receive p k).0.verified ≡ true)
      × ((p.verified ≡ true)
          ⊎ (((10 < k.bytes_transferred) × (k.bytes_transferred ≤ 205))
              ⊎ ((contains k.packet_code (version b'6') ≡ true)
                  ⊎ (contains k.packet_code (version b'7') ≡ true))))
unfolding receive
receive-verified p k h =
    elim (Bool-cases (k.bytes_transferred == 0 || ltb 721 k.bytes_transferred)) [
      | inl odd ↦ absurd (ground (arith, h, odd))
      | inr even ↦
          (ground (arith, even, admit-verified known.0 k (queued even)), reason (queued even))
    ]
  where
    made : Peer × List Reaction
    made = make_request p k

    known : Peer × List Reaction
    known = handshake made.0 k

    queued :
        (k.bytes_transferred == 0 || ltb 721 k.bytes_transferred) ≡ false
        → 0 < times_queued (admit known.0 k).1
    queued even = ground (
      arith,
      h,
      even,
      (make_request_neutral p k).0,
      (handshake_neutral made.0 k).0,
      times-append queued_once made.1 (known.1 ++ (admit known.0 k).1),
      times-append queued_once known.1 (admit known.0 k).1,
    )

    reason :
        0 < times_queued (admit known.0 k).1
        → (p.verified ≡ true)
          ⊎ (((10 < k.bytes_transferred) × (k.bytes_transferred ≤ 205))
              ⊎ ((contains k.packet_code (version b'6') ≡ true)
                  ⊎ (contains k.packet_code (version b'7') ≡ true)))
    reason q =
        let v = admit-verified known.0 k q in
        elim (known-verified made.0 k v.0) [
          | inl e ↦ elim (made-verified p k e v.1).0 [
            | inl before ↦ inl before
            | inr device ↦ inr (inl device)
          ]
          | inr named ↦ inr (
              inr (
                subst (λ c. (contains c (version b'6') ≡ true) ⊎ (contains c (version b'7') ≡ true))
                  (made-code p k v.1) named))
        ]

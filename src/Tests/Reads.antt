-- ===== src/Tests/Reads.antt =====
-- A packet of the size of a user's, with the code of a version that is served.
use uubang_iot.Base.{
  ◌+◌, ◌≡◌, ◌≤◌, ◌<◌, [], true, false, ◌⊎◌, arith, not, ◌||◌, ◌&&◌, ◌==◌, ltb, if◌then◌else◌,
}
use uubang_iot.Base.Bytes.{contains, starts_with}
use uubang_iot.Receive.{Peer, Packet, receive, version, make_request, handshake, admit}
use uubang_iot.Receive.Owner.{times_queued, times_freed, receive_owner, receive-verified}

abbrev stranger : Peer
stranger = record { verified = false; tasks = 0; peer_code = [] }

abbrev hello : Packet
hello = record { bytes_transferred = 721; packet_code = version b'7'; arg_conn = true }

receive_owner_example :
    let r = receive stranger hello in
    (r.0.tasks ≤ 120)
    × (r.0.tasks ≡ 0 + times_queued r.1)
    × (times_queued r.1 + times_freed r.1
        ≡ (if not (721 == 0 || ltb 721 721) && true then 1 else 0))
receive_owner_example = receive_owner stranger hello (omega arith)

queues : 0 < times_queued (receive stranger hello).1
unfolding receive make_request handshake admit contains starts_with
queues = omega arith

receive-verified_example :
    ((receive stranger hello).0.verified ≡ true)
    × ((false ≡ true)
        ⊎ (((10 < 721) × (721 ≤ 205))
            ⊎ ((contains (version b'7') (version b'6') ≡ true)
                ⊎ (contains (version b'7') (version b'7') ≡ true))))
receive-verified_example = receive-verified stranger hello queues

-- ===== src/Receive.antt =====
-- What `ServerWorkThread` (src/ServerWorkThread.c) does with one completed read: the handshake of the
-- program's version, the bound on the requests in work, and the request that goes to `talk`.
pub mod Owner
use uubang_iot.Base.{
  ℕ, zero, suc, ◌+◌, List, [], ◌∷◌, ◌++◌, Bool, true, false, ◌&&◌, ◌||◌, not, ◌==◌, ltb, leb,
  if◌then◌else◌,
}
use uubang_iot.Base.Bytes.{contains}

-- The fields of the connection that decide: `info[1] == 'Y'`, `info[2]`, and the text of `checkcode`.
pub record Peer : Type 0 where
  pub verified : Bool
  pub tasks : ℕ
  pub peer_code : List ℕ

-- A completed read: `BytesTransferred`, the text that the copy functions put in `checkcode`, and
-- whether there was memory for the request.
pub record Packet : Type 0 where
  pub bytes_transferred : ℕ
  pub packet_code : List ℕ
  pub arg_conn : Bool

pub data Reaction : Type 0 where
  closes_socket sends_oom sends_upd queues_request frees_request reads_again : Reaction
  -- `ARG_CONN->MemMark` is read through NULL: what the list names behind it does not happen
  faults : Reaction

abbrev pub zyx : List ℕ
zyx = b'Z' ∷ b'Y' ∷ b'X' ∷ []

abbrev pub version : ℕ → List ℕ
version last = zyx ++ (b'X' ∷ b'1' ∷ b'2' ∷ b'2' ∷ last ∷ [])

-- The request is made: a device's packet counts as verified. Packets of 11 to 205 bytes are those.
unfoldable pub make_request : Peer → Packet → Peer × List Reaction
make_request p k =
    if not k.arg_conn
    then (p, sends_oom ∷ [])
    else if ltb 10 k.bytes_transferred && leb k.bytes_transferred 205
    then (record p { verified = true; peer_code = k.packet_code }, [])
    else (record p { peer_code = k.packet_code }, [])

-- The version of a user's program.
unfoldable pub handshake : Peer → Packet → Peer × List Reaction
unfolding contains
handshake p k =
    if contains p.peer_code zyx && (not p.verified && k.arg_conn)
    then if contains p.peer_code (version b'6') || contains p.peer_code (version b'7')
      then (record p { verified = true }, [])
      else (p, sends_upd ∷ [])
    else (p, [])

-- `freeNode(ARG_CONN->MemMark, ARG_CONN)`
abbrev pub free_request : Bool → Reaction
free_request true = frees_request
free_request false = faults

-- A connection that is not verified is closed and not read again; another has its request queued
-- while fewer than 120 are in work.
unfoldable pub admit : Peer → Packet → Peer × List Reaction
admit p k =
    if not p.verified
    then (p, closes_socket ∷ free_request k.arg_conn ∷ [])
    else if ltb p.tasks 120 && k.arg_conn
    then (record p { tasks = p.tasks + 1 }, queues_request ∷ reads_again ∷ [])
    else (p, sends_oom ∷ free_request k.arg_conn ∷ reads_again ∷ [])

-- The branch of a read that succeeded, with both pointers there.
unfoldable pub receive : Peer → Packet → Peer × List Reaction
unfolding make_request handshake admit
receive p k =
    if k.bytes_transferred == 0 || ltb 721 k.bytes_transferred
    then (p, closes_socket ∷ [])
    else let made = make_request p k in
      let known = handshake made.0 k in
      let admitted = admit known.0 k in (admitted.0, made.1 ++ (known.1 ++ admitted.1))

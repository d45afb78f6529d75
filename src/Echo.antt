-- ===== src/Echo.antt =====
-- server/echoserver.cpp: the answer to the phones that look for a server.
pub mod Replies
use monidroid.Base.{
  ℕ, ◌==◌, ◌&&◌, Bool, true, false, List, [], ◌∷◌, ◌++◌, length, int_bytes, if◌then◌else◌,
}
use monidroid.Protocol.{bytes_eq, cl_echo_word, sv_echo_word}

-- `class EchoServer`. `receiving` says whether a receive is pending; `sent` has the datagrams that were sent,
-- newest first, with the endpoint.
pub record EchoServer : Type 0 where
  pub started : Bool
  pub receiving : Bool
  pub echo_message : List ℕ
  pub recvbuf : List ℕ
  pub sent : List (ℕ × List ℕ)

-- `makeEchoMessage`; `os_id` is `MD_OS_ID`.
unfoldable pub make_echo_message : List ℕ → List ℕ → List ℕ
make_echo_message os_id hostname =
    sv_echo_word ++ (os_id ++ (int_bytes (length hostname) ++ hostname))

unfoldable pub new_echo_server : List ℕ → List ℕ → EchoServer
unfolding make_echo_message
new_echo_server os_id hostname = record {
  started = true;
  receiving = true;
  echo_message = make_echo_message os_id hostname;
  recvbuf = cl_echo_word;
  sent = [];
}

-- How a receive ends: with the first bytes of a datagram, as many as the buffer has, its sender, and whether
-- the answer can be sent; or with an error.
pub data Received : Type 0 where
  datagram : List ℕ → ℕ → Bool → Received
  failed : Received

-- The bytes of a datagram overwrite the start of the buffer.
unfoldable pub fill : List ℕ → List ℕ → List ℕ
fill [] buf = buf
fill (x ∷ xs) [] = []
fill (x ∷ xs) (b ∷ buf) = x ∷ fill xs buf

-- The handler of `echoMainAsync`, which receives again unless the answer failed.
unfoldable pub on_receive : EchoServer → Received → EchoServer
unfolding fill
on_receive s (datagram bytes from can_send) =
    let s' = record s { recvbuf = fill bytes s.recvbuf } in
    if length bytes == length s.recvbuf && bytes_eq (fill bytes s.recvbuf) cl_echo_word
    then (if can_send
        then record s' { sent = (from, s.echo_message) ∷ s.sent }
        else record s' { receiving = false })
    else s'
on_receive s failed = record s { started = false; receiving = false }

-- A server that does not receive meets nothing more.
unfoldable pub echo_main : EchoServer → List Received → EchoServer
unfolding on_receive
echo_main s [] = s
echo_main s (r ∷ rs) = let rest = echo_main (on_receive s r) rs in if s.receiving then rest else s

-- The destructor.
unfoldable pub close_echo_server : EchoServer → EchoServer
close_echo_server s = record s { started = false; receiving = false }

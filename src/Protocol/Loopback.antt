-- ===== src/Protocol/Loopback.antt =====
-- Client and server together: the client's calls reach the server's handler through the loopback
-- port of the server, and nothing listens on any other port.
pub mod RoundTrip
use slush.Base.{ℕ, Bool, false, List, [], ◌==◌, if◌then◌else◌}
use slush.Protocol.Client.{Exchange, refused, answered, Network}
use slush.Protocol.Desktop.{Desktop}
use slush.Protocol.Server.{Conn, handle}
use slush.Text.{Bytes, codes}

-- A connection on which the client has sent its request.
abbrev pub accepted : Bytes → Conn
accepted request = record { input = request; output = []; closed = false }

abbrev pub answer_of : {W : Type 0} → Conn × W → W × Exchange
answer_of (conn, w) = (w, answered conn.output)

unfoldable pub loopback : {W : Type 0} → Desktop W → ℕ → Bytes → Network W
loopback desktop server_port token port request w =
    if port == server_port
    then answer_of (handle desktop token (accepted request) w)
    else (w, refused (codes "connection refused"))

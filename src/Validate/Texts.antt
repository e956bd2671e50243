-- ===== src/Validate/Texts.antt =====
-- The texts of the errors that go into the report of a validation. What the system says of a read that
-- failed is an argument.
use slush.Base.{none, some, ◌++◌}
use slush.Protocol.Client.{
  ClientError, dial, send, read_response, read_body, copy_failed, paste_failed,
}
use slush.Protocol.Listener.{ServerError, already_running, listen_failed, clipboard_port, no_server}
use slush.Protocol.Token.{TokenError, generate_token_failed}
use slush.Session.Args.{ArgsError, missing_destination}
use slush.Session.Establish.{SessionError, failed, not_bound}
use slush.Session.Run.{
  RunError, no_token, not_found, bad_arguments, not_set_up, not_detected, not_run,
}
use slush.Session.Run as Run
use slush.Session.Tunnel.{BindError, forward_failed, relisten_failed, no_free_port}
use slush.Text.Decimal.{itoa}
use slush.Text.{Bytes, codes}

abbrev pub server_text : ServerError → Bytes
server_text (already_running port) =
    codes "clipboard server already running on :"
    ++ (itoa port ++ codes "; stop it before using slush")
server_text (listen_failed port e) =
    codes "listen clipboard on 127.0.0.1:" ++ (itoa port ++ (codes ": " ++ e))
server_text (clipboard_port e) = codes "clipboard port: " ++ e
server_text no_server = codes "relisten clipboard: no server"

abbrev pub token_text : TokenError → Bytes
token_text (generate_token_failed e) = codes "generate token: " ++ e

abbrev pub arguments_text : ArgsError → Bytes
arguments_text (missing_destination client) =
    codes "missing " ++ (client ++ codes " destination host")

-- Without an attempt there is no last error, which `%w` shows as such.
abbrev pub binding_text : BindError → Bytes
binding_text (forward_failed e) = e
binding_text (relisten_failed e) = server_text e
binding_text (no_free_port none) = codes "choose a free clipboard port: %!w(<nil>)"
binding_text (no_free_port (some last)) = codes "choose a free clipboard port: " ++ last

abbrev pub session_text : SessionError → Bytes
session_text (failed e) = e
session_text (not_bound e) = binding_text e

abbrev pub run_text : RunError → Bytes
run_text (no_token e) = token_text e
run_text (Run.no_server e) = server_text e
run_text (not_found e) = e
run_text (bad_arguments e) = arguments_text e
run_text (not_set_up e) = session_text e
run_text (not_detected e) = e
run_text (not_run e) = e

-- A call without a payload sends a header, and one with a payload a request.
abbrev pub client_text : Bytes → Bytes → ClientError → Bytes
client_text sent cause (dial e) = codes "dial clipboard server: " ++ e
client_text sent cause (send e) = codes "send " ++ (sent ++ (codes ": " ++ e))
client_text sent cause read_response = codes "read response: " ++ cause
client_text sent cause read_body = codes "read payload: " ++ cause
client_text sent cause (copy_failed e) = codes "copy: " ++ e
client_text sent cause (paste_failed e) = codes "paste: " ++ e

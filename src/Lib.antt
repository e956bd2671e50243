-- ===== src/Lib.antt =====
-- slush: SSH and Mosh sessions with clipboard and URL forwarding. The development models the Go program
-- as pure functions over its data and proves how its parts behave and fit together.
--
-- How the parts interact. The command line (internal/command) turns flags into the options of a session.
-- The session (internal/session) makes the arguments of ssh or mosh from them, with an environment that
-- internal/remote writes as shell text. Programs on the remote machine reach the local desktop through
-- the clipboard server of internal/protocol, on a loopback port that the SSH connection forwards; its
-- client is used by the validation.
--
-- Where each part stands.
-- Base: Go's slices, integers and error results over lists and native numbers.
-- Text: what the program uses of the packages strings and strconv. A string is the list of its bytes.
--   White space is that of Unicode, found on the bytes of UTF-8.
-- Protocol: internal/protocol. Header is parseClipboardHeader with its helpers. Server is
--   Server.handle, executeClipboardRequest, executeClipboardPayload and readPayload, on a connection
--   given by the bytes that arrive and the bytes written. Desktop is what the server asks of
--   internal/desktop, as an interface. Listener is StartServer, Relisten, Stop, EnsurePortFree and
--   listenerPort over the sockets of the machine. Loop is serve with the handlers of several
--   connections at the same time: steps of accepting, of handling and of calls of the desktop follow one
--   another in any order, and of the desktop's steps nothing is assumed. Token is GenerateToken. Client is
--   client.go over a network; Loopback joins client and server.
-- Values: internal/command/cli_values.go. The loop of forwardFields is a recursion on the text with
--   the current field in place of the two indices. Text.Address is netip.ParseAddr, as far
--   as it tells an IPv6 address from other texts.
-- Remote: EnvPrefix, SSHCommand and MoshCommand of internal/remote/environment.go, and ShellQuote of
--   internal/remote/provision.go, against a reader of shell words by the rules of POSIX.
-- Session: session_options.go (Forward, Options), args.go (Args) and the arguments that session.go
--   gives to the clients (Client). The two loops for the host are one recursion over what each makes of
--   an argument.
-- Machine: what the program asks of os and os/exec, as a log of what happened and the outcomes, which
-- are arbitrary; Machine.Held counts the directories and children that are held after a log.
-- Remote.Provision: provision.go and install.go of internal/remote over such a machine.
-- Clipboard: internal/desktop/clipboard.go, which fills the interface Protocol.Desktop, and,
--   in Steps, that of Protocol.Loop, whose calls may be interrupted.
-- Process: run.go, run_unix.go and run_windows.go of internal/process. Signals is forwardSignals, with its
--   goroutine and its channel as a step relation.
-- Session.Tunnel, Session.Establish and Session.Run: tunnel.go, agent.go and session.go of
-- internal/session, with the sockets of Protocol.Listener. The wait for the master goes through the list
-- of what arrives before the deadline, and binding has the eight attempts of the source.
-- Command: cli.go and install.go of internal/command behind the parsing of flags. Program is the whole
--   program from there to its exit code, with main.go.
-- Completion: internal/command/hosts.go. Syntax reads the lines of a configuration, Paths is what the
--   code uses of path/filepath, Reading fills the sets of hosts and visited files, and Matching is
--   completeHost. The files, the matches of a pattern and the directories are an argument, of which
--   nothing is assumed. The recursion over includes counts down from sixteen, the bound of the code.
-- Validate: internal/validate. The checks go over an interface to an open session and the clipboard,
--   which Run fills with the session of Session.Run and the client of the protocol; Texts is the text of
--   the errors that go into its report.
--
-- Loops are recursions on lists, with no fuel but the depth of includes, which the code bounds
-- itself; printing a number recurs on the order of numbers.
-- A header line has at most 4096 bytes and a payload at most 64 MiB, as in the source.
--
-- An error is its own value or its text; where the text quotes an output for display, the quotation is
-- left out. What the system says of an operation that fails is an argument or an outcome.
--
-- Not modelled: the parsing of flags and the display of errors and help, which are the command-line
-- libraries' own; the uploaded Python and shell files, which the program holds as data; deadlines, where
-- the input of a connection is what arrives in time; signals that end the program itself; and
-- DefaultPort, which the Go code does not use.
pub mod Base
pub mod Text
pub mod Machine
pub mod Process
pub mod Clipboard
pub mod Protocol
pub mod Remote
pub mod Session
pub mod Validate
pub mod Values
pub mod Command
pub mod Completion

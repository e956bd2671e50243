-- ===== src/Values/Forward/Reparse.antt =====
-- Forwards as text for SSH, and parsePortForward of internal/command/cli_values.go on that text.
use slush.Base.{
  ℕ, false, List, [], ◌∷◌, ◌≡◌, ◌≢◌, refl, subst, arith, All, append_assoc, cons-ne-nil, Result, ok,
  err, wrap_error, >>=-eq-ok, ok-injective, Bool-cases, inl, inr,
}
use slush.Session.Forward.{forward_string, host_text}
use slush.Text.Decimal.Itoa.{itoa-ne-nil, itoa-lacks}
use slush.Text.Decimal.{itoa}
use slush.Text.{Bytes, codes, has_byte}
use slush.Values.Forward.Fields.{IsField, plain, forward_fields_four}
use slush.Values.Forward.Pieces.{IsPiece, forward_fields_sound}
use slush.Values.Forward.Hosts.{
  IsHost, name, host_text-IsField, forward_host-host_text, forward_host-IsHost,
  forward_host-decimal,
}
use slush.Values.Forward.{
  PortForward, configuration, is_empty, forward_fields, forward_host, set_destination,
  set_destination_port, parse_from_port, parse_fields, parse_port_forward,
}
use slush.Values.Ports.{IsPort, set_port-itoa, set_port_iff}
use slush.Values.{bind_address, listen_port, destination_host, destination_port, decimal, set_port}

-- A forward between hosts, whose bind address is no number, with ports in range.
pub record IsForward (f : PortForward) : Type 0 where
  pub bind : IsHost f.bind_address
  pub bind_not_decimal : decimal f.bind_address ≡ false
  pub listen : IsPort f.listen_port
  pub host : IsHost f.host
  pub port : IsPort f.port

itoa-IsField : (n : ℕ) → IsField (itoa n)
itoa-IsField n = plain (itoa-lacks n b'[' refl, itoa-lacks n b']' refl) (itoa-lacks n b':' refl)

is_empty-itoa : (s : Bytes) → s ≢ [] → is_empty s ≡ false
is_empty-itoa [] h = absurd (h refl)
is_empty-itoa (c ∷ s) h = refl

host_text-decimal : {h : Bytes} → IsHost h → decimal h ≡ false → decimal (host_text h) ≡ false
host_text-decimal {h} host d = elim (Bool-cases (has_byte h b':')) [
  | inl colon ↦ rw colon refl
  | inr no_colon ↦ rw no_colon d
]

parse_fields_lem :
    (value : Bytes) {f : PortForward}
    → IsForward f
    → parse_fields value
        (host_text f.bind_address ∷ itoa f.listen_port ∷ host_text f.host ∷ itoa f.port ∷ [])
      ≡ ok f
unfolding parse_fields parse_from_port set_destination set_destination_port
parse_fields_lem value {f} h = rw (
  host_text-decimal h.bind h.bind_not_decimal,
  parse_fields,
  forward_host-host_text h.bind,
  set_port-itoa f.listen_port h.listen,
  forward_host-host_text h.host,
  is_empty-itoa (itoa f.port) (itoa-ne-nil f.port),
  set_port-itoa f.port h.port,
)

-- The text of a forward for SSH is accepted on the command line as that forward.
parse_port_forward-forward_string :
    {f : PortForward} → IsForward f → parse_port_forward (forward_string (configuration f)) ≡ ok f
unfolding parse_port_forward forward_string
parse_port_forward-forward_string {f} h =
    rw
      (
        append_assoc,
        forward_fields_four (host_text f.bind_address) (itoa f.listen_port) (host_text f.host)
            (itoa f.port) (host_text-IsField h.bind) (itoa-IsField f.listen_port)
            (host_text-IsField h.host) (itoa-IsField f.port),
      )
      (parse_fields_lem _ h)

set_port-IsPort : (value : Bytes) {n : ℕ} → set_port value ≡ ok n → IsPort n
set_port-IsPort value {n} e = ((set_port_iff value n).0 e).2

wrap_error-eq_ok :
    {E F A : Type 0} (f : E → F) (r : Result E A) {a : A} → wrap_error f r ≡ ok a → r ≡ ok a
wrap_error-eq_ok f (ok b) h = ground arith
wrap_error-eq_ok f (err e) h = cc

set_destination_port-IsForward :
    (f : PortForward) (value : Bytes) {g : PortForward}
    → IsForward f
    → set_destination_port f value ≡ ok g
    → IsForward g
unfolding set_destination_port
set_destination_port-IsForward f value h e =
    let (n, set, same) =
      >>=-eq-ok (wrap_error destination_port (set_port value)) (λ n. ok (record f { port = n }))
        e in
    let n_port = set_port-IsPort value (wrap_error-eq_ok destination_port (set_port value) set) in
    subst IsForward (ok-injective same) (record {
      bind = h.bind;
      bind_not_decimal = h.bind_not_decimal;
      listen = h.listen;
      host = h.host;
      port = n_port;
    })

with_host :
    {f : PortForward} {a : Bytes} → IsForward f → IsHost a → IsForward (record f { host = a })
with_host h a = record {
  bind = h.bind;
  bind_not_decimal = h.bind_not_decimal;
  listen = h.listen;
  host = a;
  port = h.port;
}

set_destination-IsForward :
    (f : PortForward) (fields : List Bytes) (value : Bytes) {g : PortForward}
    → IsForward f
    → All IsPiece fields
    → set_destination f fields value ≡ ok g
    → IsForward g
unfolding set_destination
set_destination-IsForward f [] value h pieces e = cc
set_destination-IsForward f (a ∷ []) value h pieces e = subst IsForward (ok-injective e) h
set_destination-IsForward f (a ∷ b ∷ []) value h pieces e = elim (Bool-cases (decimal b)) [
  | inl number ↦ set_destination_port-IsForward f b h (rw number at e)
  | inr no_number ↦
      let (host, set, same) =
        >>=-eq-ok (wrap_error destination_host (forward_host b)) (λ a. ok (record f { host = a }))
          (rw no_number at e) in
      let read = wrap_error-eq_ok destination_host (forward_host b) set in
      subst IsForward (ok-injective same) (with_host h (forward_host-IsHost pieces.1.0 read))
]
set_destination-IsForward f (a ∷ b ∷ c ∷ []) value h pieces e =
    let (host, set, same) = >>=-eq-ok (wrap_error destination_host (forward_host b)) _ e in
    let read = wrap_error-eq_ok destination_host (forward_host b) set in
    let g_ok = with_host h (forward_host-IsHost pieces.1.0 read) in
    elim (Bool-cases (is_empty c)) [
      | inl empty ↦ subst IsForward (ok-injective (rw empty at same)) g_ok
      | inr full ↦ set_destination_port-IsForward _ c g_ok (rw full at same)
    ]
set_destination-IsForward f (a ∷ b ∷ c ∷ d ∷ rest) value h pieces e = cc

parse_from_port-IsForward :
    (value bind : Bytes) (fields : List Bytes) {g : PortForward}
    → IsHost bind
    → decimal bind ≡ false
    → All IsPiece fields
    → parse_from_port value bind fields ≡ ok g
    → IsForward g
unfolding parse_from_port
parse_from_port-IsForward value bind [] hb db pieces e = cc
parse_from_port-IsForward value bind (p ∷ rest) hb db pieces e =
    let (n, set, later) = >>=-eq-ok (wrap_error listen_port (set_port p)) _ e in
    let n_port = set_port-IsPort p (wrap_error-eq_ok listen_port (set_port p) set) in
    set_destination-IsForward _ (p ∷ rest) value
      (record {
        bind = hb;
        bind_not_decimal = db;
        listen = n_port;
        host = name (cons-ne-nil _ _) refl;
        port = n_port;
      })
      pieces later

parse_fields-IsForward :
    (value : Bytes) (fields : List Bytes) {g : PortForward}
    → All IsPiece fields
    → parse_fields value fields ≡ ok g
    → IsForward g
unfolding parse_fields
parse_fields-IsForward value [] pieces e =
    parse_from_port-IsForward value (codes "localhost") [] (name (cons-ne-nil _ _) refl) refl pieces
      e
parse_fields-IsForward value (p ∷ []) pieces e =
    parse_from_port-IsForward value (codes "localhost") (p ∷ []) (name (cons-ne-nil _ _) refl) refl
      pieces e
parse_fields-IsForward value (a ∷ b ∷ rest) pieces e = elim (Bool-cases (decimal a)) [
  | inl number ↦
      parse_from_port-IsForward value (codes "localhost") (a ∷ b ∷ rest)
        (name (cons-ne-nil _ _) refl) refl pieces (rw number at e)
  | inr no_number ↦
      let (bind, set, later) =
        >>=-eq-ok (wrap_error bind_address (forward_host a)) _ (rw no_number at e) in
      let read = wrap_error-eq_ok bind_address (forward_host a) set in
      parse_from_port-IsForward value bind (b ∷ rest) (forward_host-IsHost pieces.0 read)
        (forward_host-decimal pieces.0 no_number read) pieces.1 later
]

-- Every forward that the command line accepts is between hosts, with ports from 1 to 65535, and
-- its bind address is no number.
pub parse_port_forward-IsForward :
    (value : Bytes) {f : PortForward} → parse_port_forward value ≡ ok f → IsForward f
unfolding parse_port_forward
parse_port_forward-IsForward value e =
    let (fields, cut, later) = >>=-eq-ok (forward_fields value) (parse_fields value) e in
    parse_fields-IsForward value fields (forward_fields_sound value cut) later

-- What the command line accepts as a forward is, as text for SSH, accepted again as the same
-- forward.
pub parse_port_forward_reparse :
    (value : Bytes) {f : PortForward}
    → parse_port_forward value ≡ ok f
    → parse_port_forward (forward_string (configuration f)) ≡ ok f
parse_port_forward_reparse value e =
    parse_port_forward-forward_string (parse_port_forward-IsForward value e)

-- ===== src/Protocol/Loopback/RoundTrip.antt =====
-- Copies and pastes of the client through the server of Protocol.Loopback.
use slush.Base.{
  ℕ, ◌≤◌, ◌<◌, ◌^◌, true, false, none, some, [], ◌∷◌, ◌++◌, ◌≡◌, refl, ap, ok-injective, inl, inr,
  arith, ◌==◌, length, All, Result, ok, err, ◌>>=◌, length-append, any-append, append-nil,
  append_assoc, ==_refl,
}
use slush.Protocol.Client.Responses.{
  first_line, read_clipboard_response_done, read_clipboard_response_failed,
  read_clipboard_response_pasted, server_error_text_failed,
}
use slush.Protocol.Client.{
  ClientError, copy_failed, paste_failed, copied, pasted, request_text, exchange_result,
  clipboard_call, read_clipboard_response,
}
use slush.Protocol.Client
use slush.Protocol.Desktop.{Desktop}
use slush.Protocol.Header.Accepts.{parse_clipboard_header_iff}
use slush.Protocol.Header.{clipboard_magic, max_clipboard_payload, parse_clipboard_header}
use slush.Protocol.Loopback.{accepted, loopback}
use slush.Protocol.Server.Requests.{copy, paste, handle-perform, replied, status_reply, paste_reply}
use slush.Protocol.Server.{handle}
use slush.Text.Decimal.Itoa.{itoa-IsWord, itoa-lacks, length-itoa, atoi-itoa}
use slush.Text.Decimal.{itoa}
use slush.Text.Fields.{IsVisible, IsWord, fields, fields_word, fields_last}
use slush.Text.{Bytes, codes, has_byte, equal, has_prefix}

-- A token that fits a request line with the longest verb and length.
pub record IsToken (token : Bytes) : Type 0 where
  pub word : IsWord token
  pub short : length token ≤ 4074

visible-lacks : (s : Bytes) → All IsVisible s → has_byte s b'\n' ≡ false
visible-lacks [] h = refl
visible-lacks (c ∷ s) h = ground (arith, visible-lacks s h.1)

abbrev copy_header : Bytes → ℕ → Bytes
copy_header token n = clipboard_magic ++ b' ' ∷ (token ++ b' ' ∷ (codes "COPY" ++ b' ' ∷ itoa n))

abbrev paste_header : Bytes → Bytes
paste_header token = clipboard_magic ++ b' ' ∷ (token ++ b' ' ∷ codes "PASTE")

module _ (token : Bytes) (t : IsToken token) where
  fields-copy_header :
      (n : ℕ) → fields (copy_header token n) ≡ clipboard_magic ∷ token ∷ codes "COPY" ∷ itoa n ∷ []
  fields-copy_header n = rw (
    fields_word clipboard_magic (token ++ b' ' ∷ (codes "COPY" ++ b' ' ∷ itoa n)) (omega arith, cc),
    fields_word token (codes "COPY" ++ b' ' ∷ itoa n) t.word,
    fields_word (codes "COPY") (itoa n) (omega arith, cc),
    fields_last (itoa n) (itoa-IsWord n),
  )

  fields-paste_header : fields (paste_header token) ≡ clipboard_magic ∷ token ∷ codes "PASTE" ∷ []
  fields-paste_header = rw (
    fields_word clipboard_magic (token ++ b' ' ∷ codes "PASTE") (omega arith, cc),
    fields_word token (codes "PASTE") t.word,
    fields_last (codes "PASTE") (omega arith, cc),
  )

  parse-copy_header :
      (n : ℕ)
      → n ≤ max_clipboard_payload
      → parse_clipboard_header (copy_header token n)
        ≡ ok (record { verb = codes "COPY"; token = token; payload = n })
  parse-copy_header n h =
      (parse_clipboard_header_iff (copy_header token n) _).1
        (inr (inl refl, (itoa n, fields-copy_header n, atoi-itoa n (omega arith), h)))

  parse-paste_header :
      parse_clipboard_header (paste_header token)
      ≡ ok (record { verb = codes "PASTE"; token = token; payload = 0 })
  parse-paste_header =
      (parse_clipboard_header_iff (paste_header token) _).1
        (inl (inr refl, fields-paste_header, refl))

  copy_header-lacks : (n : ℕ) → has_byte (copy_header token n) b'\n' ≡ false
  copy_header-lacks n =
      rw
        (
          any-append {0} (λ c. c == b'\n') token (b' ' ∷ (codes "COPY" ++ b' ' ∷ itoa n)),
          visible-lacks token t.word.0,
        )
        (itoa-lacks n b'\n' refl)

  paste_header-lacks : has_byte (paste_header token) b'\n' ≡ false
  paste_header-lacks =
      rw (
        any-append {0} (λ c. c == b'\n') token (b' ' ∷ codes "PASTE"),
        visible-lacks token t.word.0,
      )

  length-copy_header : (n : ℕ) → n ≤ max_clipboard_payload → length (copy_header token n) < 4096
  length-copy_header n h = omega (
    arith,
    length-append {0} token (b' ' ∷ (codes "COPY" ++ b' ' ∷ itoa n)),
    length-itoa 7 n (omega arith),
    t.short,
  )

  length-paste_header : length (paste_header token) < 4096
  length-paste_header = omega (arith, length-append {0} token (b' ' ∷ codes "PASTE"), t.short)

-- What the caller of `Copy`, or `Paste`, learns of the operation on the desktop: of an error, the
-- first line of its text.
module _ {W : Type 0} where
  abbrev pub copy_outcome : W × Result Bytes (Unit {0}) → W × Result ClientError (Unit {0})
  copy_outcome (w, ok _) = (w, ok tt)
  copy_outcome (w, err text) = (w, err (copy_failed (first_line text)))

  abbrev pub paste_outcome : W × Result Bytes Bytes → W × Result ClientError Bytes
  paste_outcome (w, ok body) = (w, ok body)
  paste_outcome (w, err text) = (w, err (paste_failed (first_line text)))

  copy_reply :
      (o : W × Result Bytes (Unit {0}))
      → ◌≡◌ {A = W × Result ClientError (Unit {0})}
          ((status_reply o).0, read_clipboard_response (status_reply o).1 >>= copied)
          (copy_outcome o)
  unfolding equal
  copy_reply (w, ok u) = rw read_clipboard_response_done
  copy_reply (w, err text) =
      rw (read_clipboard_response_failed text) (rw (server_error_text_failed (first_line text)))

  paste_reply_lem :
      (o : W × Result Bytes Bytes)
      → ((body : Bytes) → o.1 ≡ ok body → length body < 2 ^ 63)
      → ◌≡◌ {A = W × Result ClientError Bytes}
          ((paste_reply o).0, read_clipboard_response (paste_reply o).1 >>= pasted)
          (paste_outcome o)
  unfolding has_prefix
  paste_reply_lem (w, ok body) h = rw (read_clipboard_response_pasted body (h body refl))
  paste_reply_lem (w, err text) h =
      rw (read_clipboard_response_failed text) (rw (server_error_text_failed (first_line text)))

module _ {W : Type 0} (desktop : Desktop W) (port : ℕ) (token : Bytes) (t : IsToken token) where
  handle_copy :
      (body : Bytes) (w : W)
      → length body ≤ max_clipboard_payload
      → handle desktop token (accepted (request_text token (codes "COPY") (some body))) w
        ≡ replied (record (accepted []) { closed = true }) [] (status_reply (desktop.copy body w))
  handle_copy body w h =
      let header = copy_header token (length body) in
      handle-perform desktop copy token header body [] _ w (copy_header-lacks token t (length body))
        (length-copy_header token t (length body) h) (parse-copy_header token t (length body) h)
        (simp (append_assoc, append-nil))

  handle_paste :
      (w : W)
      → handle desktop token (accepted (request_text token (codes "PASTE") none)) w
        ≡ replied (record (accepted []) { closed = true }) [] (paste_reply (desktop.paste w))
  handle_paste w =
      handle-perform desktop paste token (paste_header token) [] [] _ w (paste_header-lacks token t)
        (length-paste_header token t) (parse-paste_header token t) (simp append_assoc)

  -- Against a server whose token is a word of visible ASCII characters, of at most 4074 bytes,
  -- `Copy` of at most 64 MiB is the copy to the server's desktop. It succeeds if that does, and
  -- otherwise fails with the first line of the desktop's error.
  pub copy-loopback :
      (body : Bytes) (w : W)
      → length body ≤ max_clipboard_payload
      → Client.copy (loopback desktop port token) port token (some body) w
        ≡ copy_outcome (desktop.copy body w)
  unfolding Client.copy loopback
  copy-loopback body w h =
      rw (==_refl port, handle_copy body w h) (copy_reply (desktop.copy body w))

  -- Against such a server `Paste` is the paste from the server's desktop, with the same bytes, if
  -- those are fewer than 2 ^ 63. It fails with the first line of the desktop's error.
  pub paste-loopback :
      (w : W)
      → ((body : Bytes) → (desktop.paste w).1 ≡ ok body → length body < 2 ^ 63)
      → Client.paste (loopback desktop port token) port token w ≡ paste_outcome (desktop.paste w)
  unfolding Client.paste loopback
  paste-loopback w h = rw (==_refl port, handle_paste w) (paste_reply_lem (desktop.paste w) h)

copy_outcome_world : {W : Type 0} (o : W × Result Bytes (Unit {0})) → (copy_outcome o).0 ≡ o.0
copy_outcome_world (w, ok _) = refl
copy_outcome_world (w, err text) = refl

paste_outcome_ok :
    {W : Type 0} (o : W × Result Bytes Bytes) (body : Bytes)
    → o.1 ≡ ok body
    → (paste_outcome o).1 ≡ ok body
paste_outcome_ok (w, ok b) body h = ap ok (ok-injective h)
paste_outcome_ok (w, err text) body h = cc

pasted_small :
    {W : Type 0} (desktop : Desktop W) (body : Bytes) (w : W) (b : Bytes)
    → length body ≤ max_clipboard_payload
    → (desktop.paste w).1 ≡ ok body
    → (desktop.paste w).1 ≡ ok b
    → length b < 2 ^ 63
pasted_small desktop body w b h back p = ground arith

-- When the desktop, right after the copy of a text of at most 64 MiB, would paste that text, then
-- what a client copies through the server is what a client then pastes through it. The token is a
-- word of visible ASCII characters, of at most 4074 bytes.
pub paste-copy :
    {W : Type 0} (desktop : Desktop W) (port : ℕ) (token body : Bytes) (w : W)
    → IsToken token
    → (desktop.paste (desktop.copy body w).0).1 ≡ ok body
    → length body ≤ max_clipboard_payload
    → (Client.paste
        (loopback desktop port token)
        port
        token
        (Client.copy (loopback desktop port token) port token (some body) w).0).1
      ≡ ok body
paste-copy desktop port token body w t back h =
    let e = copy-loopback desktop port token t body w h in
    let small = λ (b : Bytes) (p : (desktop.paste (desktop.copy body w).0).1 ≡ ok b).
      pasted_small desktop body (desktop.copy body w).0 b h back p in
    rw
      (
        e,
        copy_outcome_world (desktop.copy body w),
        paste-loopback desktop port token t (desktop.copy body w).0 small,
      )
      (paste_outcome_ok (desktop.paste (desktop.copy body w).0) body back)

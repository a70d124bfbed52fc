-- ===== src/Tests/Manual.antt =====
-- An agent at the thread-based server: its request, its opening and one report.
use jd_relay.Common.{
  ◌≡◌, refl, inl, inr, true, false, [], ◌∷◌, ◌++◌, some, Text, codes, text_eq, arith, delete, join,
}
use jd_relay.Common.Outcome.{Outcome, returned, raised}
use jd_relay.Common.Utf8.{utf8_encode, utf8_decode}
use jd_relay.Crypto.Codec.{encrypt, to_json, unsigned}
use jd_relay.Crypto.AesGcm
use jd_relay.Crypto.Envelope.{build_signing_payload, type_value}
use jd_relay.Common.Decimal.{str}
use jd_relay.Ws.ManualServer.{Client, Session, send_text}
use jd_relay.Ws.ManualServer.Opening.{
  Opened, refused, failed, ready, open_client, handle_client, read_fields,
}
use jd_relay.Ws.ManualServer.Reports.{Carried, IsCarried, segments, round_of}
use jd_relay.Ws.ManualServer.Served.{talk, reports_served}
use jd_relay.Ws.Handshake.Answer.Agreement.{forwarder_files}
use jd_relay.Ws.ManualServer.Wire.{
  apply_mask, read_length, read_payload, recv, recv_frame, recv_rest, send_frame,
}
use jd_relay.Ws.RawWs.Upgrade.{
  build_upgrade_response, compute_accept_key, cut_header, lower, parse_http_upgrade, read_headers,
  split_lines, split_words,
}
use jd_relay.Common.Dict.{insert, lookup}
use jd_relay.Crypto.Base64.{b64_decode, b64_encode, clean, lines, standard_decode, standard_encode}
use jd_relay.Ws.RawWs.Frames.{client_frame}
use jd_relay.Ws.RawWs.{length_field, opcode_value, unmask}
use jd_relay.Common.Words.{from_bytes, to_bytes}
use jd_relay.Crypto.AesGcm.{new_cipher, chosen_iv}
use jd_relay.Crypto.Ecdh.{ascii_encode, derive_shared_secret_pem, public_key_pem}
use jd_relay.Crypto.Ecdsa.{
  from_private_key_data, from_private_key_file, from_public_key_data, sign, verify, verifying_key,
}
use jd_relay.Ws.Handshake.Answer.{make_answer, signing_data, verify_init}
use jd_relay.Tests.Keys.{keys, keys-Correct, exchange, exchange-Agrees, are_bytes-IsBytes}
use jd_relay.Tests.Wire.{wire, dump, load}
use jd_relay.Tests.Sessions.{show, opening_of, request, masked_text, manual, encoded}
use jd_relay.Tests.Talks.{talker, first_report, first-IsSent}

abbrev encrypted : Outcome Text → Text
encrypted (raised e) = []
encrypted (returned t) = t

abbrev carried : Carried
carried =
    let message =
      encrypted
        (encrypt wire keys talker first_report.plaintext first_report.type first_report.sent) in
    record {
      report = first_report;
      message = message;
      packed = encoded (utf8_encode message);
      key = 1 ∷ 2 ∷ 3 ∷ 4 ∷ [];
    }

abbrev caller : Client
caller = record {
  incoming =
      some request
      ∷ some (masked_text (wire.dumps (opening_of (codes "a"))))
      ∷ segments (carried ∷ []) [];
  sent = [];
  calls = [];
  is_open = true;
}

abbrev opened : Opened keys
opened =
    open_client manual wire keys exchange show (λ b. b)
      (forwarder_files keys exchange keys-Correct exchange-Agrees show 7 3 5 4) 4 6 caller

abbrev session_of : Opened keys → Session keys
session_of (refused c) = record { codec = talker; client = c }
session_of (failed c) = record { codec = talker; client = c }
session_of (ready a projects s) = s

caller-ready : opened ≡ ready (codes "a") (codes "relay" ∷ []) (session_of opened)
unfolding load apply_mask ascii_encode b64_decode b64_encode build_upgrade_response clean
    client_frame compute_accept_key cut_header delete derive_shared_secret_pem dump from_bytes
    from_private_key_data from_private_key_file from_public_key_data insert join length_field lines
    lookup lower make_answer new_cipher opcode_value open_client parse_http_upgrade public_key_pem
    read_fields read_headers read_length read_payload recv recv_frame recv_rest send_frame send_text
    sign signing_data split_lines split_words standard_decode standard_encode text_eq to_bytes
    unmask utf8_decode utf8_encode verify verify_init verifying_key
caller-ready = refl

carried-IsCarried : IsCarried wire keys talker carried
unfolding dump encrypt AesGcm.encrypt chosen_iv build_signing_payload unsigned str type_value
    to_json sign b64_encode join lines standard_encode utf8_encode
carried-IsCarried = record {
  made = refl;
  read = refl;
  fits = omega arith;
  packed_bytes = are_bytes-IsBytes carried.packed refl;
  size = refl;
  key_bytes = omega arith;
}

abbrev served_caller : Client
served_caller =
    handle_client manual wire keys exchange show (λ b. b)
      (forwarder_files keys exchange keys-Correct exchange-Agrees show 7 3 5 4) 4 6
      (round_of carried ∷ round_of carried ∷ []) caller

reports_served_example :
    (served_caller.calls
      ≡ (session_of opened).client.calls
        ++ talk manual wire keys keys-Correct
            (codes "a")
            refl
            refl
            refl
            refl
            (codes "relay" ∷ [])
            (carried ∷ []))
    × (served_caller.is_open ≡ false)
unfolding load apply_mask ascii_encode b64_decode b64_encode build_upgrade_response clean
    client_frame compute_accept_key cut_header delete derive_shared_secret_pem dump from_bytes
    from_private_key_data from_private_key_file from_public_key_data insert join length_field lines
    lookup lower make_answer new_cipher opcode_value open_client parse_http_upgrade public_key_pem
    read_fields read_headers read_length read_payload recv recv_frame recv_rest send_frame send_text
    sign signing_data split_lines split_words standard_decode standard_encode text_eq to_bytes
    unmask utf8_decode utf8_encode verify verify_init verifying_key
reports_served_example =
    reports_served manual wire keys keys-Correct (codes "a") refl refl refl refl exchange show
      (λ b. b) (forwarder_files keys exchange keys-Correct exchange-Agrees show 7 3 5 4) 4 6 caller
      (codes "relay" ∷ []) (session_of opened) (carried ∷ []) (round_of carried ∷ []) talker 7 []
      caller-ready refl refl refl refl refl (carried-IsCarried, tt) (first-IsSent, tt)
      (inr (inl refl))

-- ===== src/Ws/ManualServer/Endings.antt =====
-- How the loop of a client of forwarder/app/ws/manual_server.py comes to its end.
use mathlib.Core.List.{append-nil}
use jd_relay.Common.{
  ◌<◌, ◌^◌, ◌≡◌, refl, sym, ap, ◌∙◌, ◌⊎◌, inl, inr, List, [], ◌∷◌, none, some, Text, Bytes, IsBytes,
  length,
}
use jd_relay.Common.Outcome.{returned}
use jd_relay.Common.Json.{Json}
use jd_relay.Crypto.Primitives.{Primitives}
use jd_relay.Crypto.Codec.{CryptoCodec}
use jd_relay.Ws.RawWs.{close, opcode_value}
use jd_relay.Ws.RawWs.Frames.{client_frame}
use jd_relay.Ws.ManualServer.{Client, Server, Round, one_round, io_loop}
use jd_relay.Ws.ManualServer.Wire.{Stream, recv, recv_frame}
use jd_relay.Ws.ManualServer.Wire.Frames.{recv_frame-client_frame}

-- A masked close frame, as a client sends it.
pub record IsClose (frame : Bytes) : Type 0 where
  pub key : Bytes
  pub payload : Bytes
  pub made : frame ≡ client_frame key payload close
  pub fits : length payload < 2 ^ 64
  pub size : length key ≡ 4
  pub key_bytes : IsBytes key
  pub payload_bytes : IsBytes payload

-- The loop has no further round, or what the socket has next is its end, an error or a close frame.
abbrev pub Ends : List Round → Stream → Type 0
Ends more later =
    (more ≡ [])
    ⊎ (later ≡ [])
    ⊎ ((rest : Stream) × (later ≡ none ∷ rest))
    ⊎ ((frame : Bytes) × (rest : Stream) × (later ≡ some frame ∷ rest) × IsClose frame)

module _ (server : Server) (J : Json) (P : Primitives) (agent_id : Text) where
  close_received :
      (frame : Bytes) (rest : Stream) (is_close : IsClose frame)
      → recv_frame (some frame ∷ rest) ≡ (returned (some (0x8, is_close.payload)), rest)
  unfolding opcode_value
  close_received frame rest is_close =
      let whole = client_frame is_close.key is_close.payload close in
      ap (λ b. recv_frame (some b ∷ rest)) (is_close.made ∙ sym (append-nil whole))
      ∙ recv_frame-client_frame is_close.key is_close.payload [] close rest is_close.fits
          is_close.size is_close.key_bytes is_close.payload_bytes

  -- A loop that ends gives the event loop nothing more.
  pub ending-calls :
      (more : List Round) (codec : CryptoCodec P) (later : Stream) (client : Client)
      → Ends more later
      → (io_loop server J P agent_id more
          (record { codec = codec; client = record client { incoming = later } })).calls
        ≡ client.calls
  unfolding io_loop one_round recv_frame recv
  ending-calls [] codec later client ends = refl
  ending-calls (round ∷ more) codec later client (inl e) = cc
  ending-calls (round ∷ more) codec later client (inr (inl e)) = rw e refl
  ending-calls (round ∷ more) codec later client (inr (inr (inl (rest, e)))) = rw e refl
  ending-calls (round ∷ more) codec later client (inr (inr (inr (frame, rest, e, is_close)))) =
      rw e (rw (close_received frame rest is_close) refl)

-- ===== src/Wire/Receive.antt =====
-- `RecvFrmLocalPodThread` (daemon/grpcwire/grpcwire.go): what a pod sends on a wire goes to the peer's
-- daemon. The choices of the `select` are a list of events.
pub mod Relay
use kube_dtn.Prelude.{
  ℕ, String, Bool, true, false, List, [], ◌∷◌, Action, Error, Result, ok, err, panic, Outcome,
  value, error, message, pure, fail, crash, attempt, ◌>>=◌, ◌>>◌, ltb, if◌then◌else◌,
}
use kube_dtn.Prelude.Lists.{length}
use kube_dtn.Api.Proto.{Packet}
use kube_dtn.Common.Remote.{daemon_url}
use kube_dtn.Wire.Table.{GrpcWire}
use kube_dtn.Wire.Frame.{Gopacket, Decoded, done, panicked, out_of_rounds, decode_frame}

-- pcap, `grpc.Dial` and the peer's `SendToOnce`
pub record Tunnel (World Handle : Type 0) : Type 0 where
  pub open_live : String → Action World Handle
  pub set_direction_in : Handle → Action World (Unit {0})
  pub dial : String → Action World (Unit {0})
  pub send_to_once : Packet → Action World Bool

-- What the `select` takes: the stop of the wire, a packet, or the end of the source, which is nil.
pub data Event : Type 0 where
  stopped source_closed : Event
  captured : List ℕ → Event

-- The thread waits for its next event; it ends by an error only.
pub data Progress : Type 0 where
  waiting : Progress

abbrev pub eof : Error
eof = message "EOF"

-- A failure that is logged by `Fatalf` ends the process.
abbrev pub fatal : {S A : Type 0} → Outcome A → Action S A
fatal (value a) = pure a
fatal (error e) = crash

-- An answer that is only logged.
abbrev pub answer_ignored : {S : Type 0} → Result Bool × S → Result (Unit {0}) × S
answer_ignored (ok b, s) = (ok tt, s)
answer_ignored (err e, s) = (ok tt, s)
answer_ignored (panic, s) = (panic, s)

module _ {World Handle : Type 0} (g : Gopacket) (t : Tunnel World Handle) (wire : GrpcWire) where
  -- The description of a large frame is only logged, but a panic in it is one of the process.
  abbrev pub logged : Decoded String → Action World (Unit {0})
  logged (done text) = pure tt
  logged panicked = crash
  logged out_of_rounds = crash

  unfoldable pub log_large : List ℕ → Action World (Unit {0})
  unfolding decode_frame
  log_large frame = if ltb 1518 (length frame) then logged (decode_frame g frame) else pure tt

  abbrev pub payload : List ℕ → Packet
  payload frame = record { remot_intf_id = wire.peer_iface_id; frame = frame }

  abbrev pub deliver : List ℕ → Action World (Unit {0})
  deliver frame w = answer_ignored (t.send_to_once (payload frame) w)

  unfoldable pub relay : List ℕ → Action World (Unit {0})
  unfolding log_large
  relay frame = log_large frame >> deliver frame

  unfoldable pub receive_loop : List Event → Action World Progress
  unfolding relay
  receive_loop [] = pure waiting
  receive_loop (stopped ∷ events) = fail eof
  receive_loop (source_closed ∷ events) = crash
  receive_loop (captured frame ∷ events) = relay frame >> receive_loop events

  unfoldable pub receive : List Event → Action World Progress
  unfolding receive_loop
  receive events = do
    opened ← attempt (t.open_live wire.local_node_iface_name)
    handle ← fatal opened
    directed ← attempt (t.set_direction_in handle)
    fatal directed
    t.dial (daemon_url wire.peer_node_ip)
    receive_loop events

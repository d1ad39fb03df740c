-- ===== src/Engine/Traffic.antt =====
-- `eventRead` of the server: the messages that have arrived are handed to `OnTraffic`, in order.
use gtcp.Prelude.{
  ℕ, zero, suc, ◌+◌, ◌^◌, ◌≤◌, ◌<◌, ◌≡◌, refl, ap, ◌∙◌, inl, inr, none, some, List, [], ◌∷◌, ◌++◌,
  map, arith, length, if◌then◌else◌, Option-cases,
}
use gtcp.Prelude.Int.{ℤ}
use gtcp.Prelude.Slices.{byte_lengths}
use gtcp.Alloc.{Alloc}
use gtcp.RingPool.{RingPool}
use gtcp.Run.{Run, returns}
use gtcp.Sys.{Sys}
use gtcp.Elastic.RingBuffer
use gtcp.Elastic.RingBuffer.Contents
use gtcp.Framing.{Header, default_header, decode, decode_loop}
use gtcp.Framing.Ends.{decode-Shrinks}
use gtcp.Framing.Stream.{
  Frame, sent, received, AllFrames, IsPending, Receives, length-sent, decode_stream_lem,
}
use gtcp.ConnMatrix.{get_conn, same_fd}
use gtcp.ConnMatrix.Lookup.{get_conn-add_conn}
use gtcp.Conn.{Conn, ReadResult}
use gtcp.Conn.EventRead.{arrived, stopped_by, event_read_lem}
use gtcp.Engine.{Server, Handle, State, traffic, hand_over, event_read, set_conn}

module _ (sys : Sys) (h : Handle sys) (note : List ℕ → List ℕ → h.App → h.App)
    (quiet : (c : Conn) (head_data body_data : List ℕ) (app : h.App) (net : sys.Net)
      → h.on_traffic c head_data body_data app net
        ≡ returns (c, note head_data body_data app, net)) where
  abbrev pub each_note : List (List ℕ × List ℕ) → h.App → h.App
  each_note [] app = app
  each_note ((head_data, body_data) ∷ ms) app = each_note ms (note head_data body_data app)

  traffic_lem :
      (fuel : ℕ) (head : Header) (c : Conn) (app : h.App) (net : sys.Net)
      → Contents.IsValid c.inbound
      → length (Contents.contents c.inbound) < fuel
      → let out = decode_loop fuel head c.inbound in
        traffic sys h fuel head c app net
        ≡ returns (record c { inbound = out.1 }, each_note out.0 app, net)
  unfolding traffic decode_loop
  traffic_lem zero head c app net v enough = absurd (omega arith)
  traffic_lem (suc fuel) head c app net v enough =
      let s = decode-Shrinks head c.inbound v in
      let (head_data, body_data, err, b) = decode head c.inbound in
      elim (Option-cases (decode head c.inbound).2) [
        | inr (e, failed) ↦ rw (traffic, decode_loop, failed) refl
        | inl ok ↦
            let ih =
              traffic_lem fuel head (record c { inbound = b }) (note head_data body_data app) net
                s.valid (omega (arith, s.shorter ok)) in
            rw (traffic, decode_loop, ok, quiet) ih
      ]

  -- The messages `fs` went to the handler, `rest` is in the buffer of the connection at `fd`, and
  -- nothing else has changed.
  pub record HandsOver (fd : ℤ) (c : Conn) (fs : List Frame) (rest : List ℕ) (eng : Server)
      (app : h.App) (net : sys.Net) (ran : Run (State sys h)) : Type 0 where
    pub st : State sys h
    pub returned : ran ≡ returns st
    pub handed : st.app ≡ each_note (map received fs) app
    pub left : RingBuffer.RingBuffer
    pub stored :
        (k : ℤ)
        → get_conn st.eng.connections k ≡ (
            if same_fd fd k then some (record c { inbound = left }) else get_conn eng.connections k)
    pub rest_left : Contents.contents left ≡ rest
    pub valid : Contents.IsValid left
    pub same_net : st.net ≡ net

  module _ (alloc : Alloc) (pool : RingPool) where
    -- For a handler whose `OnTraffic` leaves the connection and the kernel as they are, and a
    -- server with the default decoder that has the connection at fd: when a valid inbound ring
    -- of a size of at most 2 ^ 61 and the bytes that arrive, at most 2 ^ 60 and fewer than the
    -- fuel, hold the messages fs and then the start of another one, and the reads end without
    -- an error, the server's `eventRead` returns, `OnTraffic` has been called for exactly the
    -- messages fs in order, and only the connection at fd has changed: its inbound buffer holds
    -- the start of the other one.
    pub engine_event_read_lem :
        (fuel : ℕ) (fd : ℤ) (rs : List ReadResult) (c : Conn) (eng : Server) (app : h.App)
        (net : sys.Net) (fs : List Frame) (rest : List ℕ)
        → Contents.IsValid c.inbound
        → RingBuffer.capacity c.inbound ≤ 2 ^ 61
        → length (Contents.contents c.inbound) + length (arrived rs) ≤ 2 ^ 60
        → length (Contents.contents c.inbound) + length (arrived rs) < fuel
        → eng.dec ≡ some default_header
        → get_conn eng.connections fd ≡ some c
        → stopped_by rs ≡ none
        → AllFrames fs
        → IsPending rest
        → Contents.contents c.inbound ++ arrived rs ≡ sent fs ++ rest
        → HandsOver fd c fs rest eng app net (event_read sys h alloc pool fuel fd rs c eng app net)
    unfolding event_read hand_over set_conn
    engine_event_read_lem fuel fd rs c eng app net fs rest v small room enough with_dec there
          quiet_end all pending e =
        let r = event_read_lem alloc pool rs c v small room in
        let c' : Conn = record c { inbound = r.inbound } in
        let few : length (Contents.contents r.inbound) < fuel =
          omega (byte_lengths, ap length r.in_order) in
        let t = traffic_lem fuel default_header c' app net r.valid few in
        let d : Receives fs rest (decode_loop fuel default_header r.inbound) =
          decode_stream_lem fs rest fuel r.inbound r.valid all pending (r.in_order ∙ e)
            (omega (byte_lengths, ap length (r.in_order ∙ e), length-sent fs)) in
        let out = decode_loop fuel default_header r.inbound in
        rw (event_read, r.returned, quiet_end, hand_over, with_dec, t, set_conn, there)
          (record {
            st = _;
            returned = refl;
            handed = ap (λ (ms : List (List ℕ × List ℕ)). each_note ms app) d.handed_out;
            left = out.1;
            stored = λ k. get_conn-add_conn eng.connections fd k (record c { inbound = out.1 });
            rest_left = d.left;
            valid = d.valid;
            same_net = refl;
          })

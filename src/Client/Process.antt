-- ===== src/Client/Process.antt =====
-- `process` on a stream of messages, in whatever parts the peer's bytes arrive.
use gtcp.Prelude.{
  ℕ, suc, ◌+◌, ◌^◌, ◌≤◌, ◌<◌, ◌≡◌, refl, sym, ap, ◌∙◌, some, List, [], ◌∷◌, ◌++◌, map, length,
  append_assoc, append-nil, take,
}
use mathlib.Core.Path.{subst}
use gtcp.Prelude.Int.{pos, pos_part}
use gtcp.Prelude.Slices.{flatten, byte_lengths}
use gtcp.Alloc.{Alloc}
use gtcp.RingPool.{RingPool}
use gtcp.Elastic.RingBuffer
use gtcp.Elastic.RingBuffer.{RingBuffer}
use gtcp.Elastic.RingBuffer.Contents
use gtcp.Framing.{default_header, decode_loop}
use gtcp.Framing.Ends.{capacity-decode_loop}
use gtcp.Framing.Chunks.{splits}
use gtcp.Framing.Stream.{
  Frame, sent, received, AllFrames, IsPending, in_head, in_body, told, sent_parts, length-head_of,
  length-sent, decode_stream_lem, Receives,
}
use gtcp.Conn.{got}
use gtcp.Client.{Client, Handle, each_traffic, Processed, reading, process}

-- A complete message is not the start of one.
complete_no_pending :
    (f : Frame) (fs : List Frame) (rest : List ℕ)
    → AllFrames (f ∷ fs)
    → IsPending (sent (f ∷ fs) ++ rest)
    → ⊥
complete_no_pending f fs rest all (in_head few) = omega (byte_lengths, length-head_of f)
complete_no_pending f fs rest all (in_body bl fits says few) =
    let behind = f.body ++ (sent fs ++ rest) in
    let same : pos bl ≡ pos (length f.body) =
      sym says
      ∙ ap (λ (x : List ℕ). default_header.get_body_len (take 8 x)) (sent_parts f fs rest)
      ∙ told f behind all.1 all.2 in
    omega (byte_lengths, ap pos_part same, length-head_of f)

messages-append :
    (h : Handle) (xs ys : List (List ℕ × List ℕ)) (app : h.App)
    → each_traffic h (xs ++ ys) app ≡ each_traffic h ys (each_traffic h xs app)
messages-append h [] ys app = refl
messages-append h (x ∷ xs) ys app = messages-append h xs ys (h.on_traffic x.0 x.1 app)

map-append_frames :
    (fs gs : List Frame) → map received (fs ++ gs) ≡ map received fs ++ map received gs
map-append_frames [] gs = refl
map-append_frames (f ∷ fs) gs =
    ap (λ (x : List (List ℕ × List ℕ)). received f ∷ x) (map-append_frames fs gs)

module _ (h : Handle) (alloc : Alloc) (pool : RingPool) where
  abbrev pub client : RingBuffer → Client
  client b = record { inbound_buffer = b; dec = some default_header }

  -- The client waits for more; the handler got the messages `fs`, and `rest` is in the buffer.
  pub record Serves (fs : List Frame) (rest : List ℕ) (app : h.App) (out : Processed h)
      : Type 0 where
    pub left : RingBuffer
    pub waits : out ≡ reading (client left) (each_traffic h (map received fs) app)
    pub rest_left : Contents.contents left ≡ rest
    pub valid : Contents.IsValid left

  -- For a client with the default decoder, whose ring is valid, has a size of at most 2 ^ 61
  -- and holds no complete message: when the bytes held and those that arrive, at most 2 ^ 60 in
  -- all, are the messages fs and then the start of another one, `process` ends up reading,
  -- `OnTraffic` has been called for exactly the messages fs in order, and the buffer holds the
  -- start of the other one, in whatever parts the bytes arrive. A message of fs has a body that
  -- is not empty and a length below 2 ^ 31.
  pub process_lem :
      (chunks : List (List ℕ)) (fs : List Frame) (rest : List ℕ) (b : RingBuffer) (app : h.App)
      → Contents.IsValid b
      → RingBuffer.capacity b ≤ 2 ^ 61
      → length (Contents.contents b) + length (flatten chunks) ≤ 2 ^ 60
      → AllFrames fs
      → IsPending rest
      → IsPending (Contents.contents b)
      → Contents.contents b ++ flatten chunks ≡ sent fs ++ rest
      → Serves fs rest app (process h alloc pool (map got chunks) (client b) app)
  unfolding process
  process_lem [] [] rest b app v small room all p q e = record {
    left = b;
    waits = refl;
    rest_left = sym (append-nil (Contents.contents b)) ∙ e;
    valid = v;
  }
  process_lem [] (f ∷ fs) rest b app v small room all p q e = absurd (
      complete_no_pending f fs rest all
        (subst IsPending (sym (append-nil (Contents.contents b)) ∙ e) q))
  process_lem (chunk ∷ chunks) fs rest b app v small room all p q e =
      let w = Contents.ring_buffer_write_lem alloc pool b chunk v small (omega byte_lengths) in
      let e' : Contents.contents w.result ++ flatten chunks ≡ sent fs ++ rest =
        ap (λ (x : List ℕ). x ++ flatten chunks) w.appended
        ∙ append_assoc (Contents.contents b) chunk (flatten chunks)
        ∙ e in
      let s = splits fs rest (Contents.contents w.result) (flatten chunks) all p e' in
      let held = Contents.length-contents w.result w.valid in
      let fuel = suc (RingBuffer.buffered w.result) in
      let enough : length s.before < fuel =
        omega (byte_lengths, held, ap length s.parts, length-sent s.before) in
      let d : Receives s.before s.tail (decode_loop fuel default_header w.result) =
        decode_stream_lem s.before s.tail fuel w.result w.valid s.all_before s.pending s.parts
          enough in
      let out = decode_loop fuel default_header w.result in
      let r =
        process_lem chunks s.after rest out.1 (each_traffic h (map received s.before) app) d.valid
          (omega
            (byte_lengths, w.bounded, capacity-decode_loop default_header fuel w.result w.valid))
          (omega (byte_lengths, ap length d.left, ap length s.parts, ap length w.appended, room))
          s.all_after p (subst IsPending (sym d.left) s.pending)
          (ap (λ (x : List ℕ). x ++ flatten chunks) d.left ∙ s.behind) in
      rw (process, w.returned, d.handed_out)
        (record {
          left = r.left;
          waits =
              r.waits
              ∙ ap (reading (client r.left)) (
                  sym (messages-append h (map received s.before) (map received s.after) app)
                  ∙ ap (λ (ms : List (List ℕ × List ℕ)). each_traffic h ms app)
                      (sym (ap (map received) s.whole ∙ map-append_frames s.before s.after)));
          rest_left = r.rest_left;
          valid = r.valid;
        })

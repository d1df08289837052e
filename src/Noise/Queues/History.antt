-- ===== src/Noise/Queues/History.antt =====
-- What two paired transports of rust/noise/src/lib.rs do over a whole session.
use mathlib.Core.List.{append_assoc, append-nil}
use juicebox_sdk.Prelude.{◌≡◌, sym, ap, ◌∙◌, List, [], ◌∷◌, ◌++◌, Bytes}
use juicebox_sdk.Noise.{Suite, Transport}
use juicebox_sdk.Noise.Agreement.{Paired}
use juicebox_sdk.Noise.Channel.{
  Channel, channel, Event, client_sends, server_sends, server_reads, client_reads, Step,
}
use juicebox_sdk.Noise.Queues.{
  Queues, queues, Move, move_client_sends, move_server_sends, move_server_reads, move_client_reads,
  Implements, forward_simulation,
}

-- The messages of a kind of event, in order.
abbrev pub sent_by_client : List Event → List Bytes
sent_by_client [] = []
sent_by_client (client_sends m ∷ es) = m ∷ sent_by_client es
sent_by_client (_ ∷ es) = sent_by_client es

abbrev pub read_by_server : List Event → List Bytes
read_by_server [] = []
read_by_server (server_reads m ∷ es) = m ∷ read_by_server es
read_by_server (_ ∷ es) = read_by_server es

abbrev pub sent_by_server : List Event → List Bytes
sent_by_server [] = []
sent_by_server (server_sends m ∷ es) = m ∷ sent_by_server es
sent_by_server (_ ∷ es) = sent_by_server es

abbrev pub read_by_client : List Event → List Bytes
read_by_client [] = []
read_by_client (client_reads m ∷ es) = m ∷ read_by_client es
read_by_client (_ ∷ es) = read_by_client es

-- What was under way and what was sent is what was read and what is under way.
abbrev Balanced : Queues → List Event → Queues → Type 0
Balanced q events q' =
    (q.to_server ++ sent_by_client events ≡ read_by_server events ++ q'.to_server)
    × (q.to_client ++ sent_by_server events ≡ read_by_client events ++ q'.to_client)

Move-Balanced :
    (q q₁ q' : Queues) (event : Event) (events : List Event)
    → Move q event q₁
    → Balanced q₁ events q'
    → Balanced q (event ∷ events) q'
Move-Balanced q q₁ q' event events (move_client_sends {up = up} m) h =
    (sym (append_assoc up (m ∷ []) (sent_by_client events)) ∙ h.0, h.1)
Move-Balanced q q₁ q' event events (move_server_sends {down = down} m) h =
    (h.0, sym (append_assoc down (m ∷ []) (sent_by_server events)) ∙ h.1)
Move-Balanced q q₁ q' event events (move_server_reads m) h = (ap (λ ms. m ∷ ms) h.0, h.1)
Move-Balanced q q₁ q' event events (move_client_reads m) h = (h.0, ap (λ ms. m ∷ ms) h.1)

module _ (S : Suite) where
  pub data Run : Channel → List Event → Channel → Type 0 where
    run_none : {c : Channel} → Run c [] c
    run_step :
        {c d c' : Channel} {event : Event} {events : List Event}
        → Step S c event d
        → Run d events c'
        → Run c (event ∷ events) c'

  Run-Balanced :
      (c : Channel) (q : Queues) (events : List Event) (c' : Channel)
      → Implements S c q
      → Run c events c'
      → (q' : Queues) × Implements S c' q' × Balanced q events q'
  Run-Balanced c q events c' h run_none = (q, h, (append-nil q.to_server, append-nil q.to_client))
  Run-Balanced c q events c' h (run_step {d = d} {event = event} {events = later} step run) =
      let moved = forward_simulation S c q event d h step in
      let rest = Run-Balanced d moved.0 later c' moved.2 run in
      (rest.0, rest.1, Move-Balanced q moved.0 rest.0 event later moved.1 rest.2)

  -- In any run of two paired transports, with nothing under way at its start, what the server has
  -- read is what the client has sent, in that order and without loss, up to the messages that are
  -- still under way, and likewise in the other direction; and what is under way is the encryption of
  -- those messages.
  pub in_order_delivery :
      (ours theirs : Transport) (events : List Event) (c' : Channel)
      → Paired ours theirs
      → Run (channel ours theirs [] []) events c'
      → (up down : List Bytes) × (sent_by_client events ≡ read_by_server events ++ up)
        × (sent_by_server events ≡ read_by_client events ++ down)
        × Implements S c' (queues up down)
  in_order_delivery ours theirs events c' paired run =
      let r =
        Run-Balanced (channel ours theirs [] []) (queues [] []) events c' (sym paired.1, paired.0)
          run in
      (r.0.to_server, r.0.to_client, r.2.0, r.2.1, r.1)

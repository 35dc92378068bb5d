-- ===== src/Tests/Clients.antt =====
-- Examples on the client.
use esp32_control_logix.Base.{ℕ, ◌≡◌, refl, true, false, some, List, [], ◌∷◌}
use esp32_control_logix.Base.Int.{pos}
use esp32_control_logix.Status.{pending}
use esp32_control_logix.Message
use esp32_control_logix.Message.{Message}
use esp32_control_logix.Tag
use esp32_control_logix.PlcClient
use esp32_control_logix.PlcClient.{PlcClient, Slot, used_slot, any_tag_busy}
use esp32_control_logix.PlcClient.Tags.{create_tag, destroy_tag, read}
use esp32_control_logix.PlcClient.Tags.Single.{IsSingle}
use esp32_control_logix.PlcClient.Tags.Wedge.{IsWedged, destroy_tag-IsWedged}
use esp32_control_logix.PlcClient.Link.{disconnect, poll}
use esp32_control_logix.PlcClient.Link.Run.{call, stay, polled, tag_created, tag_read, Run-IsSingle}
use esp32_control_logix.PlcClient.Link.Moves.{Follows, poll-Follows}
use esp32_control_logix.PlcClient.Link.Disconnect.{polls, disconnect-polls}
use esp32_control_logix.Tests.Bench.{Peer, peer, network, client, slot, tag, message, session}

abbrev nothing_sent : Peer
nothing_sent = ([], [])

-- The characters of `Tag`.
abbrev pub tag_name : List ℕ
tag_name = 84 ∷ 97 ∷ 103 ∷ []

-- The client with a tag, then with a read of the tag started, then polled once.
abbrev with_tag : PlcClient
with_tag = (create_tag client (some tag_name) 1).1

abbrev reading : PlcClient × Peer
reading = let r = read peer with_tag nothing_sent (pos 0) 1000 in (r.1, r.2)

abbrev polled_once : PlcClient × Peer
polled_once = let r = poll network reading.0 reading.1 in (r.1, r.2)

Run-IsSingle_example : IsSingle polled_once.0
Run-IsSingle_example =
    Run-IsSingle network
      (call (tag_created (some tag_name) 1) (call (tag_read (pos 0) 1000) (call polled stay))) refl

-- A client with one tag in use that is being read.
abbrev busy_slot : Slot
busy_slot = record slot {
  tag = record tag { state = Tag.reading };
  in_use = true;
  name = tag_name;
  element_count = 1;
}

abbrev busy_client : PlcClient
busy_client = record client {
  msg = record message { attached = true; state = Message.sending; deadline = 2000 };
  slots = busy_slot ∷ slot ∷ [];
}

destroy_tag-IsWedged_example : IsWedged (destroy_tag busy_client (pos 0)).1
unfolding used_slot
destroy_tag-IsWedged_example = destroy_tag-IsWedged busy_client (pos 0) busy_slot refl refl refl

-- What is left when that tag is destroyed and another one is created.
abbrev wedged : PlcClient
wedged = record busy_client {
  slots =
      (record busy_slot { in_use = false }) ∷ (record slot { in_use = true; name = tag_name }) ∷ [];
}

wedged-IsWedged : IsWedged wedged
unfolding any_tag_busy
wedged-IsWedged = record { no_tag = refl; in_flight = refl }

-- A client whose registration had until 500, at time 1000.
abbrev late : PlcClient
late = record client { session = record session { deadline = 500 } }

disconnect-polls_example :
    let d = disconnect network late nothing_sent in
    ((polls network 3 d.1 d.2).0 ≡ pending) × ((polls network 3 d.1 d.2).2 ≡ nothing_sent)
disconnect-polls_example = disconnect-polls network late nothing_sent 3 refl refl refl

poll-Follows_example : Follows PlcClient.ready busy_client (poll network busy_client nothing_sent)
poll-Follows_example = poll-Follows network busy_client nothing_sent

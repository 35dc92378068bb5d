-- ===== src/Tests/Sketches.antt =====
-- Examples on the sketches, the tag pool and the station.
use esp32_control_logix.Base.{ℕ, ◌+◌, ◌-◌, ◌≤◌, ◌<◌, ◌≡◌, refl, true, false, some, [], arith}
use esp32_control_logix.Base.Int.{pos, negsuc}
use esp32_control_logix.Status.{closed}
use esp32_control_logix.Address.{Address, number}
use esp32_control_logix.Tcp
use esp32_control_logix.Tcp.{Tcp, Platform}
use esp32_control_logix.Ethernet
use esp32_control_logix.Ethernet.{Ethernet, Driver, Config, no_address}
use esp32_control_logix.Station.{Station, station, station_transport}
use esp32_control_logix.PlcClient.{tag_count}
use esp32_control_logix.PlcClient.Tags.{create_tag}
use esp32_control_logix.PlcClient.Tags.Pool.{Created, create_tag-Created}
use esp32_control_logix.Sketch.Cycle.{Cycle, wait_ethernet, connect, loop, after}
use esp32_control_logix.Sketch.Cycle.Lifecycle.{IsCycle}
use esp32_control_logix.Sketch.Cycle.Stuck.{failed_connect-stays}
use esp32_control_logix.Sketch.EipSession
use esp32_control_logix.Sketch.EipSession.{EipSession}
use esp32_control_logix.Sketch.IdentityQuery
use esp32_control_logix.Sketch.IdentityQuery.{IdentityQuery}
use esp32_control_logix.Sketch.TagReadWrite
use esp32_control_logix.Sketch.TagReadWrite.{TagReadWrite, test_dint}
use esp32_control_logix.Sketch.ConnectedTagReadWrite
use esp32_control_logix.Sketch.ConnectedTagReadWrite.{ConnectedTagReadWrite}
use esp32_control_logix.Sketch.Runs.{sketches-IsCycle}
use esp32_control_logix.Sketch.ReliabilityDemo
use esp32_control_logix.Sketch.ReliabilityDemo.{Demo}
use esp32_control_logix.Sketch.ReliabilityDemo.Exhaust
use esp32_control_logix.Sketch.ReliabilityDemo.Exhaust.{exhaust-read}
use esp32_control_logix.Sketch.LanInventory
use esp32_control_logix.Sketch.LanInventory.{
  Inventory, next_host, network_of, broadcast_of, local_gateway, no_identity,
}
use esp32_control_logix.Sketch.LanInventory.Hosts.{next_host-number}
use esp32_control_logix.Sketch.LanInventory.Scan.{reached}
use esp32_control_logix.Sketch.LanInventory.Probes
use esp32_control_logix.Sketch.LanInventory.Probes.{targets}
use esp32_control_logix.Sketch.LanInventory.Calls.{Stays, logged, dials}
use esp32_control_logix.Address.Order.{IsAddress}
use esp32_control_logix.Sketch.LanInventory.Subnet.{subnet-probed}
use esp32_control_logix.Session
use esp32_control_logix.Session.{Session}
use esp32_control_logix.Tests.Bench.{Peer, network, session, message, tag, client, connection}
use esp32_control_logix.Tests.Sessions.{one_byte}

abbrev nothing_sent : Peer
nothing_sent = ([], [])

-- A session that was never opened.
abbrev unopened : Session
unopened = record session { attached = false; state = Session.idle; handle = 0 }

abbrev waiting : {D : Type 0} → D → Cycle D
waiting d = record { session = unopened; phase = wait_ethernet; phase_started = 0; work = d }

waiting-IsCycle : {D : Type 0} (d : D) → IsCycle (waiting d)
waiting-IsCycle d = record { fits = refl; handle_set = λ e. cc }

abbrev eip_session : EipSession
eip_session = waiting tt

abbrev identity_query : IdentityQuery
identity_query = waiting (record { msg = message; query_index = 0; shown = [] })

abbrev tag_read_write : TagReadWrite
tag_read_write = waiting (record { tag = tag; msg = message; step = 0; step_started = false })

abbrev connected_tag_read_write : ConnectedTagReadWrite
connected_tag_read_write = waiting (record { conn = connection; step = 0; step_started = false })

sketches-IsCycle_example :
    IsCycle (after (EipSession.loop network 0) 5 eip_session nothing_sent).0
    × IsCycle (after (IdentityQuery.loop network 0) 5 identity_query nothing_sent).0
    × IsCycle (after (TagReadWrite.loop network 0) 5 tag_read_write nothing_sent).0
    × IsCycle
        (after (ConnectedTagReadWrite.loop network 0) 5 connected_tag_read_write nothing_sent).0
sketches-IsCycle_example =
    sketches-IsCycle network 0 5 eip_session identity_query tag_read_write connected_tag_read_write
      nothing_sent (waiting-IsCycle _) (waiting-IsCycle _) (waiting-IsCycle _) (waiting-IsCycle _)

-- A driver with a link and an address.
abbrev wired : Driver ℕ
wired = record {
  has_emac = false;
  begin_rmii = λ w cfg. (true, w);
  spi_begin = λ w sck miso mosi. w;
  begin_spi = λ w cfg. (true, w);
  config = λ w ip gateway subnet dns. (true, w);
  end = λ w. w;
  link_up = λ w. (true, w);
  has_ip = λ w. (true, w);
  local_ip = λ w. record { o0 = 192; o1 = 168; o2 = 1; o3 = 50 };
  subnet_mask = λ w. record { o0 = 255; o1 = 255; o2 = 255; o3 = 0 };
}

-- A platform without a free socket.
abbrev no_socket : Platform ℕ
no_socket = record one_byte { socket = λ w. (negsuc 0, w) }

abbrev config : Config
config = record {
  phy_type = 0;
  ip = no_address;
  gateway = no_address;
  subnet = no_address;
  dns = no_address;
  sck = pos 5;
  miso = pos 7;
  mosi = pos 8;
  cs = pos 6;
  irq = negsuc 0;
  rst = negsuc 0;
  phy_addr = pos 1;
  rmii = false;
  mdc = pos 23;
  mdio = pos 18;
  power = negsuc 0;
  clk_mode = pos 0;
}

abbrev ready_station : Station ℕ
ready_station = record {
  eth = record { cfg = config; started = true; ready = true; failed = false };
  tcp = record { fd = negsuc 0; remote_ip = 0; remote_port = 0; deadline = 0; state = closed };
  platform = 0;
}

failed_connect-stays_example :
    (after
      (loop
        (station no_socket wired)
        config
        (EipSession.start (station no_socket wired))
        (EipSession.registered_step (station no_socket wired)))
      100
      eip_session
      ready_station).0.phase
    ≡ connect
unfolding Ethernet.poll Tcp.connect Tcp.open_socket
failed_connect-stays_example =
    failed_connect-stays no_socket wired config (EipSession.start (station no_socket wired))
      (EipSession.registered_step (station no_socket wired)) 99 eip_session ready_station refl refl
      (λ e. cc)

create_tag-Created_example : Created client (create_tag client (some test_dint) 1)
create_tag-Created_example = create_tag-Created client (some test_dint) 1 refl

-- The client of the examples has two free slots.
abbrev exhausting : Demo
exhausting = record {
  plc = client;
  phase = ReliabilityDemo.exhaust;
  phase_started = 0;
  tag = negsuc 0;
}

exhaust-read_example :
    let (full, w1) = Exhaust.after network 2 exhausting nothing_sent in
    (full.phase ≡ ReliabilityDemo.exhaust)
    × (tag_count full.plc.slots ≡ 2)
    × ((ReliabilityDemo.loop network full w1).0.phase ≡ ReliabilityDemo.read)
unfolding tag_count
exhaust-read_example = exhaust-read network 2 exhausting nothing_sent refl refl

-- The addresses of the network of the examples.
abbrev own : Address
own = record { o0 = 192; o1 = 168; o2 = 1; o3 = 50 }

abbrev mask : Address
mask = record { o0 = 255; o1 = 255; o2 = 255; o3 = 0 }

abbrev last_of_24 : Address
last_of_24 = record { o0 = 192; o1 = 168; o2 = 1; o3 = 255 }

next_host-number_example :
    (number (next_host last_of_24).1 ≡ number last_of_24 + 1) × ((next_host last_of_24).0 ≡ true)
unfolding number next_host
next_host-number_example = next_host-number last_of_24 (record {
  octet0 = omega arith;
  octet1 = omega arith;
  octet2 = omega arith;
  octet3 = omega arith;
})

abbrev inventory : Inventory
inventory = record {
  session = unopened;
  msg = message;
  tag = tag;
  phase = LanInventory.wait_ethernet;
  phase_started = 0;
  network = no_address;
  broadcast = no_address;
  current_ip = no_address;
  gateway = local_gateway;
  found = 0;
  query_index = 0;
  step_started = false;
  id = no_identity;
}

-- While the Ethernet interface of the station is ready, it has the address of the driver.
abbrev HasLink : Station ℕ → Type 0
HasLink s = s.eth.ready ≡ true

station-Stays : Stays (station one_byte wired) own HasLink
unfolding station station_transport
station-Stays = record {
  transport_keeps = record {
    write_keeps = λ s bs o. o;
    read_keeps = λ s len o. o;
    millis_keeps = λ s o. o;
    random_keeps = λ s o. o;
  };
  connect_keeps = λ s ip port timeout_ms o. o;
  poll_keeps = λ s o. o;
  close_keeps = λ s o. o;
  has_address = λ s o. ground (arith, o);
}

octets : (a : Address) → a.o0 < 256 → a.o1 < 256 → a.o2 < 256 → a.o3 < 256 → IsAddress a
octets a h0 h1 h2 h3 = record { octet0 = h0; octet1 = h1; octet2 = h2; octet3 = h3 }

subnet-probed_example :
    let net = station one_byte wired in
    let first = number (network_of own mask) in
    let last = number (broadcast_of own mask) in
    let (l', s') = Probes.after (logged net) 4 inventory (ready_station, []) in
    (s'.1 ≡ dials (targets (number local_gateway) (number own) first (reached l' - first)))
    × (first ≤ reached l')
    × (reached l' < last)
    × (l'.phase ≡ LanInventory.done → reached l' + 1 ≡ last)
unfolding number station Ethernet.poll
subnet-probed_example =
    subnet-probed (station one_byte wired) own mask station-Stays 3 inventory ready_station refl
      refl refl refl (octets own (omega arith) (omega arith) (omega arith) (omega arith))
      (octets mask (omega arith) (omega arith) (omega arith) (omega arith)) (omega arith)
      (octets local_gateway (omega arith) (omega arith) (omega arith) (omega arith))
